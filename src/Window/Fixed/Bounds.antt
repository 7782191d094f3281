-- ===== src/Window/Fixed/Bounds.antt =====
-- The targets of the fixed controller (redhat_kernel/tcp_output.c) and its safe shrinking.
use starlink_tcp.Common.{
  ℕ, ◌+◌, ◌-◌, ◌*◌, ◌/◌, ◌^◌, ◌≤◌, ◌<◌, arith, min, sub32, leb, if◌then◌else◌,
}
use starlink_tcp.Kernel.Net.{Net}
use starlink_tcp.Kernel.Sock.{Sock, Env}
use starlink_tcp.Leo.Dynamic.{leo_now_real_us}
use starlink_tcp.Leo.Period.Clock.{IsClock}
use starlink_tcp.Leo.Target.Ramp.{product_fits}
use starlink_tcp.Window.Fixed.{
  phase_window, clamped, tcp_leo_rwnd_clamp, tcp_leo_rwnd_target, tcp_leo_rwnd_min_window,
  tcp_leo_rwnd_phase_ms,
}
use starlink_tcp.Window.Fixed.Clock.{tcp_leo_rwnd_phase_ms-lt}

-- The clamp never raises the window, never takes it below the target, and never takes its right
-- edge further back than the bytes that have drained since the last update.
pub clamped_safe :
    (cur_win new_win target drained : ℕ)
    → (clamped cur_win new_win target drained ≤ new_win)
      × (min new_win target ≤ clamped cur_win new_win target drained)
      × (min new_win cur_win ≤ clamped cur_win new_win target drained + drained)
unfolding clamped
clamped_safe cur_win new_win target drained = ground arith

-- A part of the ramp is at most the whole.
part-le : (d e p : ℕ) → e ≤ p → d * e / p ≤ d
part-le d e p h = grind arith

-- A target lies between the least window and the normal one, for 32-bit windows and times.
phase_window_bounds :
    (net : Net) (pre min_win normal_win phase : ℕ)
    → min_win < normal_win
    → normal_win < 2 ^ 32
    → pre < net.leo_rwnd_period_ms
    → phase < net.leo_rwnd_period_ms
    → net.leo_rwnd_period_ms < 2 ^ 32
    → net.leo_rwnd_outage_ms + net.leo_rwnd_recovery_ms < 2 ^ 32
    → (min_win ≤ phase_window net pre min_win normal_win phase)
      × (phase_window net pre min_win normal_win phase ≤ normal_win)
unfolding phase_window
phase_window_bounds net pre min_win normal_win phase h w p f l r = ground (
  arith,
  product_fits (normal_win - min_win) (phase - (net.leo_rwnd_period_ms - pre)) (omega arith)
      (omega arith),
  product_fits (normal_win - min_win) (phase - net.leo_rwnd_outage_ms) (omega arith) (omega arith),
  part-le (normal_win - min_win) (phase - (net.leo_rwnd_period_ms - pre)) pre,
  part-le (normal_win - min_win) (phase - net.leo_rwnd_outage_ms) net.leo_rwnd_recovery_ms,
)

-- Sysctls of 32 bits whose sums are too, a 32-bit window, and a clock far from its end.
pub record IsFixedCall (env : Env) (net : Net) (normal_win : ℕ) : Type 0 where
  pub clock : IsClock net (leo_now_real_us env)
  pub recovers : net.leo_rwnd_outage_ms + net.leo_rwnd_recovery_ms < 2 ^ 32
  pub win : normal_win < 2 ^ 32

tcp_leo_rwnd_target_bounds :
    (env : Env) (net : Net) (sk : Sock) (normal_win : ℕ)
    → IsFixedCall env net normal_win
    → (min normal_win (tcp_leo_rwnd_min_window env net sk)
        ≤ tcp_leo_rwnd_target env net sk normal_win)
      × (tcp_leo_rwnd_target env net sk normal_win ≤ normal_win)
unfolding tcp_leo_rwnd_target
tcp_leo_rwnd_target_bounds env net sk normal_win f = ground (
  arith,
  f.clock.ticks,
  phase_window_bounds net
      (if leb net.leo_rwnd_period_ms net.leo_rwnd_pre_ms
        then net.leo_rwnd_period_ms - 1
        else net.leo_rwnd_pre_ms)
      (tcp_leo_rwnd_min_window env net sk) normal_win (tcp_leo_rwnd_phase_ms env net),
  tcp_leo_rwnd_phase_ms-lt env f.clock,
  f.clock.period_fits,
  f.recovers,
  f.win,
)

-- The fixed controller, for a 32-bit window, sysctls whose sums fit 32 bits and a clock far from its
-- end: the window is never raised over the normal one, and never taken below the least window, or
-- below the normal one where that is lower. It is also no less than the window in force less the
-- bytes drained since the last update, unless the normal window is below the window in force: then
-- it is no less than the normal window less these bytes.
pub tcp_leo_rwnd_clamp_safe :
    (env : Env) (net : Net) (sk : Sock) (cur_win new_win : ℕ)
    → IsFixedCall env net new_win
    → (tcp_leo_rwnd_clamp env net sk cur_win new_win ≤ new_win)
      × (min new_win (tcp_leo_rwnd_min_window env net sk)
          ≤ tcp_leo_rwnd_clamp env net sk cur_win new_win)
      × (min new_win cur_win
          ≤ tcp_leo_rwnd_clamp env net sk cur_win new_win + sub32 sk.rcv_nxt sk.rcv_wup)
unfolding tcp_leo_rwnd_clamp
tcp_leo_rwnd_clamp_safe env net sk cur_win new_win f = ground (
  arith,
  tcp_leo_rwnd_target_bounds env net sk new_win f,
  clamped_safe cur_win new_win (tcp_leo_rwnd_target env net sk new_win)
      (sub32 sk.rcv_nxt sk.rcv_wup),
)
