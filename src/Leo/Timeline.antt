-- ===== src/Leo/Timeline.antt =====
-- `leo_phase` of redhat_kernel/tcp_redhat.c: the phase of the handover at a time, and the time since
-- that phase began.
pub mod Order
pub mod Wellformed
use starlink_tcp.Common.{ℕ, ◌-◌, true, ◌&&◌, not, ◌==◌, min, ltb, leb, if◌then◌else◌, add64, sub64}
use starlink_tcp.Kernel.Net.{Net}
use starlink_tcp.Kernel.Sock.{LeoState, Phase, normal, pre_handover, drain, outage, recovery}
use starlink_tcp.Leo.Period.{period_us, leo_period_position_us, leo_period_id}

-- The boundaries that a snapshot sets within a period of `period` microseconds.
abbrev pub outage_start : ℕ → LeoState → ℕ
outage_start period st =
    if ltb st.frozen_rtt_half_us period then period - st.frozen_rtt_half_us else 0

abbrev pub drain_start : ℕ → LeoState → ℕ
drain_start period st =
    if ltb (add64 st.frozen_drain_us st.frozen_prediction_guard_us) (outage_start period st)
    then outage_start period st - st.frozen_drain_us - st.frozen_prediction_guard_us
    else 0

abbrev pub pre_start : ℕ → LeoState → ℕ
pre_start period st =
    if ltb st.frozen_pre_us (drain_start period st)
    then drain_start period st - st.frozen_pre_us
    else 0

abbrev pub outage_end : ℕ → LeoState → ℕ
outage_end period st = add64 (outage_start period st) st.frozen_outage_us

-- The three tests of the source, with the boundaries of PRE, DRAIN and OUTAGE as numbers.
unfoldable pub phase_at : ℕ → ℕ → ℕ → ℕ → ℕ → Phase × ℕ
phase_at pre drn out end pos =
    if leb pre pos && ltb pos drn
    then (pre_handover, pos - pre)
    else if leb drn pos && ltb pos out
    then (drain, pos - drn)
    else if leb out pos && ltb pos end
    then (outage, pos - out)
    else (normal, 0)

-- In the period of the snapshot.
unfoldable pub scheduled_phase : ℕ → ℕ → LeoState → Phase × ℕ
unfolding phase_at
scheduled_phase period pos st =
    phase_at (pre_start period st) (drain_start period st) (outage_start period st)
      (min (outage_end period st) period) pos

-- At or after the predicted handover: the recovery runs from the first call there.
pub recovery_phase : ℕ → LeoState → Phase × ℕ × LeoState
recovery_phase now st =
    if st.recovery_started
    then (let elapsed = sub64 now st.recovery_start_real_us in
        if ltb elapsed st.frozen_recovery_us
        then (recovery, elapsed, st)
        else (normal, elapsed, st))
    else (recovery, 0, record st { recovery_started = true; recovery_start_real_us = now })

-- The phase, what `*elapsed_us` is set to, and the state.
pub leo_phase : Net → ℕ → LeoState → Phase × ℕ × LeoState
unfolding scheduled_phase recovery_phase
leo_phase net now st =
    if not st.frozen
    then (normal, 0, st)
    else if period_us net == 0
    then (normal, 0, st)
    else if leo_period_id net now == st.frozen_period_id
    then (let at = scheduled_phase (period_us net) (leo_period_position_us net now) st in
        (at.0, at.1, st))
    else if ltb st.frozen_period_id (leo_period_id net now) && not (st.frozen_recovery_us == 0)
    then recovery_phase now st
    else (normal, 0, st)
