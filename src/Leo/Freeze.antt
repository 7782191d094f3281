-- ===== src/Leo/Freeze.antt =====
-- The snapshot of redhat_kernel/tcp_redhat.c: when the parameters of one handover are frozen, to
-- what values, and when they are released.
pub mod Early
pub mod Wellformed
pub mod Keep
use starlink_tcp.Common.{
  ℕ, ◌/◌, true, false, ◌&&◌, not, ◌==◌, min, max, leb, if◌then◌else◌, add64, sub64,
}
use starlink_tcp.Kernel.Net.{Net}
use starlink_tcp.Kernel.Sock.{Sock, Env, LeoState}
use starlink_tcp.Leo.Measure.{leo_min_rwnd, leo_read_receiver_rtt_us, leo_fallback_rate_Bps}
use starlink_tcp.Leo.Period.{period_us, leo_period_position_us, leo_period_id}
use starlink_tcp.Leo.Plan.{
  ms, leo_calc_pre_us, leo_prediction_guard_us, leo_calc_drain_us, leo_calc_recovery_us,
  leo_calc_outage_us,
}

-- The values that `leo_required_freeze_ahead_us` and `leo_freeze_parameters` both compute first.
unfoldable pub start_rwnd : Env → Net → Sock → ℕ → ℕ
start_rwnd env net sk normal_win =
    let learnt = sk.leo_state.normal_rwnd_ewma in
    max (min (if learnt == 0 then normal_win else learnt) normal_win) (leo_min_rwnd env net sk)

unfoldable pub planned_rtt_us : Net → Sock → ℕ
planned_rtt_us net sk =
    let rtt = sk.leo_state.rtt_us in if rtt == 0 then leo_read_receiver_rtt_us net sk else rtt

unfoldable pub planned_rate_Bps : Net → Sock → ℕ
planned_rate_Bps net sk =
    let rate = sk.leo_state.recv_rate_Bps_ewma in
    if rate == 0 then leo_fallback_rate_Bps net else rate

unfoldable pub leo_required_freeze_ahead_us : Env → Net → Sock → ℕ → ℕ
unfolding start_rwnd planned_rtt_us planned_rate_Bps
leo_required_freeze_ahead_us env net sk normal_win =
    let pre =
      leo_calc_pre_us net (start_rwnd env net sk normal_win) (leo_min_rwnd env net sk)
        (planned_rate_Bps net sk) in
    let rtt = planned_rtt_us net sk in
    add64
      (add64 (add64 (add64 pre (rtt / 2)) (leo_calc_drain_us net rtt))
        (ms net.leo_dynamic_freeze_guard_ms))
      (leo_prediction_guard_us net)

-- The last statement of the source's function is a log line.
pub leo_freeze_parameters : Env → Net → Sock → ℕ → ℕ → LeoState
unfolding start_rwnd planned_rtt_us planned_rate_Bps
leo_freeze_parameters env net sk normal_win now =
    let st = sk.leo_state in
    let least = leo_min_rwnd env net sk in
    let start = start_rwnd env net sk normal_win in
    let rtt = planned_rtt_us net sk in
    let rate = planned_rate_Bps net sk in
    record st {
      frozen_period_id = leo_period_id net now;
      frozen_rtt_us = rtt;
      frozen_rtt_half_us = rtt / 2;
      frozen_recv_rate_Bps = rate;
      frozen_start_rwnd = start;
      frozen_min_rwnd = least;
      frozen_pre_us = leo_calc_pre_us net start least rate;
      frozen_outage_us = leo_calc_outage_us net rtt st.rtt_baseline_us;
      frozen_drain_us = leo_calc_drain_us net rtt;
      frozen_recovery_us = leo_calc_recovery_us net rtt;
      frozen_prediction_guard_us = leo_prediction_guard_us net;
      pre_started = false;
      recovery_started = false;
      recovery_start_real_us = 0;
      frozen_pre_start_wnd = 0;
      frozen_pre_start_rcv_nxt = 0;
      frozen = true;
    }

-- The snapshot goes once its recovery has lasted `frozen_recovery_us`.
pub release_recovered : ℕ → LeoState → LeoState
release_recovered now st =
    if st.frozen
      && st.recovery_started
      && leb st.frozen_recovery_us (sub64 now st.recovery_start_real_us)
    then record st { frozen = false }
    else st

-- With no recovery planned, it goes in another period.
pub release_elapsed : Net → ℕ → LeoState → LeoState
release_elapsed net now st =
    if st.frozen && st.frozen_recovery_us == 0 && not (leo_period_id net now == st.frozen_period_id)
    then record st { frozen = false }
    else st

pub leo_maybe_freeze : Env → Net → Sock → ℕ → ℕ → LeoState
unfolding release_recovered release_elapsed
leo_maybe_freeze env net sk normal_win now =
    if period_us net == 0
    then sk.leo_state
    else (let until = sub64 (period_us net) (leo_period_position_us net now) in
        let ahead = leo_required_freeze_ahead_us env net sk normal_win in
        let st = release_elapsed net now (release_recovered now sk.leo_state) in
        if not st.frozen && leb until ahead
        then leo_freeze_parameters env net (record sk { leo_state = st }) normal_win now
        else st)
