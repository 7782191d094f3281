-- ===== src/Leo/Dynamic.antt =====
-- `tcp_leo_dynamic_init` and `tcp_leo_dynamic_target` of redhat_kernel/tcp_redhat.c, the two entry
-- points of the controller. A target leaves the socket with a new controller state.
pub mod Wellformed
pub mod Safe
pub mod Anchor
pub mod Reach
use starlink_tcp.Common.{ℕ, ◌/◌, Bool, true, false, ◌&&◌, not, ◌==◌, min, max, if◌then◌else◌}
use starlink_tcp.Kernel.Net.{Net}
use starlink_tcp.Kernel.Sock.{
  Sock, Env, LeoState, Phase, normal, pre_handover, drain, outage, recovery, zeroed,
}
use starlink_tcp.Leo.Freeze.{leo_maybe_freeze}
use starlink_tcp.Leo.Measure.{leo_update_measurements}
use starlink_tcp.Leo.Ports.{tcp_leo_port_matches}
use starlink_tcp.Leo.Target.{leo_pre_target, leo_recovery_target, leo_safe_target}
use starlink_tcp.Leo.Timeline.{leo_phase}

-- `div_u64(ktime_get_real_ns(), NSEC_PER_USEC)`
abbrev pub leo_now_real_us : Env → ℕ
leo_now_real_us env = env.real_ns / 1000

abbrev pub leo_now_mono_us : Env → ℕ
leo_now_mono_us env = env.mono_ns / 1000

pub tcp_leo_dynamic_init : Sock → Sock
tcp_leo_dynamic_init sk = record sk { leo_state = record zeroed { current_phase = normal } }

-- The test that the controller is on for this socket: the three early returns.
unfoldable pub leo_active : Env → Net → Sock → Bool
leo_active env net sk =
    not (net.leo_rwnd_enable == 0)
    && not (net.leo_dynamic_enable == 0)
    && tcp_leo_port_matches env net sk

abbrev pub is_pre : Phase → Bool
is_pre pre_handover = true
is_pre _ = false

-- PRE, DRAIN or OUTAGE: the phases before the handover.
abbrev pub is_reducing : Phase → Bool
is_reducing pre_handover = true
is_reducing drain = true
is_reducing outage = true
is_reducing _ = false

-- The right edge from which the window shrinks: the anchor of the reduction.
pub anchor : ℕ → ℕ → LeoState → LeoState
anchor rcv_nxt normal_win st = record st {
  frozen_pre_start_wnd = max (min normal_win st.frozen_start_rwnd) st.frozen_min_rwnd;
  frozen_pre_start_rcv_nxt = rcv_nxt;
  pre_started = true;
}

-- The two `if` blocks that set the anchor, one after the other.
pub start_pre : Phase → Phase → ℕ → ℕ → LeoState → LeoState
unfolding anchor
start_pre old_phase phase rcv_nxt normal_win st =
    let entered =
      if is_pre phase && not (is_pre old_phase) then anchor rcv_nxt normal_win st else st in
    if is_reducing phase && not entered.pre_started
    then anchor rcv_nxt normal_win entered
    else entered

-- The `switch` on the phase.
pub phase_target : Phase → ℕ → LeoState → ℕ → ℕ → ℕ
phase_target pre_handover rcv_nxt st normal_win elapsed = leo_pre_target rcv_nxt st elapsed
phase_target drain rcv_nxt st normal_win elapsed = leo_safe_target rcv_nxt st st.frozen_min_rwnd
phase_target outage rcv_nxt st normal_win elapsed = leo_safe_target rcv_nxt st st.frozen_min_rwnd
phase_target recovery rcv_nxt st normal_win elapsed = leo_recovery_target st normal_win elapsed
phase_target normal rcv_nxt st normal_win elapsed = normal_win

-- The first call measures before anything else.
pub measure_first : Env → Net → Sock → ℕ → Sock
measure_first env net sk normal_win =
    if sk.leo_state.initialized
    then sk
    else leo_update_measurements net sk normal_win (leo_now_mono_us env) normal

-- The state after `leo_maybe_freeze` and `leo_phase`, with the phase and the time in it.
pub timed : Env → Net → Sock → ℕ → Phase × ℕ × LeoState
timed env net sk normal_win =
    leo_phase net (leo_now_real_us env)
      (leo_maybe_freeze env net sk normal_win (leo_now_real_us env))

-- From the second measurement on: the anchor, the new phase, and the target under the normal window.
pub finish : Phase → Phase → ℕ → ℕ → ℕ → LeoState → LeoState × ℕ
unfolding start_pre phase_target
finish old_phase phase elapsed rcv_nxt normal_win measured =
    let st = record (start_pre old_phase phase rcv_nxt normal_win measured) {
      current_phase = phase;
    } in
    (st, min (phase_target phase rcv_nxt st normal_win elapsed) normal_win)

-- The body of the function once the controller is on and the state is initialised.
pub control : Env → Net → Phase → Sock → ℕ → Sock × ℕ
unfolding timed finish
control env net old_phase sk normal_win =
    let (phase, elapsed, st) = timed env net sk normal_win in
    let measured =
      leo_update_measurements net (record sk { leo_state = st }) normal_win (leo_now_mono_us env)
        phase in
    let (st', target) = finish old_phase phase elapsed sk.rcv_nxt normal_win measured.leo_state in
    (record sk { leo_state = st' }, target)

pub tcp_leo_dynamic_target : Env → Net → Sock → ℕ → Sock × ℕ
unfolding control measure_first leo_active
tcp_leo_dynamic_target env net sk normal_win =
    if leo_active env net sk
    then control env net sk.leo_state.current_phase (measure_first env net sk normal_win) normal_win
    else (sk, normal_win)
