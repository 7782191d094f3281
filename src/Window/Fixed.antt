-- ===== src/Window/Fixed.antt =====
-- The fixed controller of redhat_kernel/tcp_output.c: `tcp_leo_rwnd_*`. Its clock and its sysctls
-- are in milliseconds.
pub mod Clock
pub mod Bounds
use starlink_tcp.Common.{
  ℕ, ◌-◌, ◌/◌, ◌%◌, not, ◌&&◌, ◌||◌, ◌==◌, min, ltb, leb, if◌then◌else◌, u32, add32, sub32, mul32,
  sub64, mul64,
}
use starlink_tcp.Kernel.Net.{Net}
use starlink_tcp.Kernel.Sock.{Sock, Env}
use starlink_tcp.Leo.Measure.{segment_size}

pub tcp_leo_rwnd_min_window : Env → Net → Sock → ℕ
tcp_leo_rwnd_min_window env net sk =
    mul32 (if net.leo_rwnd_min_segs == 0 then 1 else net.leo_rwnd_min_segs) (segment_size env sk)

-- `do_div(now_ms, period)` is the remainder.
pub tcp_leo_rwnd_phase_ms : Env → Net → ℕ
tcp_leo_rwnd_phase_ms env net =
    let period = net.leo_rwnd_period_ms in
    let rem = env.real_ns / 1000000 % period in
    let offset = net.leo_rwnd_offset_ms % period in
    if period == 0
    then 0
    else if leb offset rem
    then rem - offset
    else sub32 (add32 rem period) offset

-- The window in each part of the period: `pre` is below the period, `delta` above 0.
pub phase_window : Net → ℕ → ℕ → ℕ → ℕ → ℕ
phase_window net pre min_win normal_win phase =
    let period = net.leo_rwnd_period_ms in
    let outage = net.leo_rwnd_outage_ms in
    let recovery = net.leo_rwnd_recovery_ms in
    let delta = normal_win - min_win in
    let pre_start = period - pre in
    if not (pre == 0) && leb pre_start phase
    then u32 (sub64 normal_win (mul64 delta (phase - pre_start) / pre))
    else if ltb phase outage
    then min_win
    else if not (recovery == 0) && ltb phase (add32 outage recovery)
    then (if net.leo_rwnd_fast_recovery == 0
        then add32 min_win (u32 (mul64 delta (phase - outage) / recovery))
        else normal_win)
    else normal_win

pub tcp_leo_rwnd_target : Env → Net → Sock → ℕ → ℕ
unfolding phase_window
tcp_leo_rwnd_target env net sk normal_win =
    let period = net.leo_rwnd_period_ms in
    let pre = if leb period net.leo_rwnd_pre_ms then period - 1 else net.leo_rwnd_pre_ms in
    let min_win = tcp_leo_rwnd_min_window env net sk in
    if net.leo_rwnd_enable == 0 || period == 0
    then normal_win
    else if leb normal_win min_win
    then normal_win
    else phase_window net pre min_win normal_win (tcp_leo_rwnd_phase_ms env net)

-- `new_win` brought down to the target, by no more than the bytes drained since the last update.
pub clamped : ℕ → ℕ → ℕ → ℕ → ℕ
clamped cur_win new_win target drained =
    if leb new_win target
    then new_win
    else if ltb target cur_win
    then min new_win (if leb (cur_win - target) drained then target else cur_win - drained)
    else min new_win target

-- What follows in the source is a log line.
pub tcp_leo_rwnd_clamp : Env → Net → Sock → ℕ → ℕ → ℕ
unfolding clamped
tcp_leo_rwnd_clamp env net sk cur_win new_win =
    if net.leo_rwnd_enable == 0
    then new_win
    else clamped cur_win new_win (tcp_leo_rwnd_target env net sk new_win)
        (sub32 sk.rcv_nxt sk.rcv_wup)
