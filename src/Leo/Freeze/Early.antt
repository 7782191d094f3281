-- ===== src/Leo/Freeze/Early.antt =====
-- The snapshot of redhat_kernel/tcp_redhat.c is taken before the schedule that it sets begins.
use starlink_tcp.Common.{ℕ, ◌+◌, ◌-◌, ◌*◌, ◌/◌, ◌^◌, ◌<◌, ◌≡◌, arith}
use starlink_tcp.Kernel.Net.{Net}
use starlink_tcp.Kernel.Sock.{Sock, Env}
use starlink_tcp.Leo.Freeze.{
  start_rwnd, planned_rtt_us, planned_rate_Bps, leo_required_freeze_ahead_us, leo_freeze_parameters,
}
use starlink_tcp.Leo.Measure.{leo_min_rwnd}
use starlink_tcp.Leo.Measure.Fits.{leo_read_receiver_rtt_us-lt}
use starlink_tcp.Leo.Period.{period_us, leo_period_position_us}
use starlink_tcp.Leo.Period.Clock.{IsClock, period_lt}
use starlink_tcp.Leo.Plan.{leo_calc_pre_us, leo_prediction_guard_us, leo_calc_drain_us}
use starlink_tcp.Leo.Plan.Bounds.{
  IsPlannable, leo_calc_pre_us_bounds, leo_calc_drain_us_bounds, leo_prediction_guard_us_eq,
  leo_calc_outage_us-le,
}
use starlink_tcp.Leo.Timeline.{pre_start}
use starlink_tcp.Leo.Timeline.Order.{IsSnapshot}

-- The RTTs that the socket holds fit 32 bits.
pub record IsMeasured (sk : Sock) : Type 0 where
  pub rtt : sk.leo_state.rtt_us < 2 ^ 32
  pub raw : sk.rcv_rtt_us < 2 ^ 32

pub planned_rtt_us-lt : (net : Net) (sk : Sock) → IsMeasured sk → planned_rtt_us net sk < 2 ^ 32
unfolding planned_rtt_us
planned_rtt_us-lt net sk m = ground (arith, leo_read_receiver_rtt_us-lt net sk m.raw)

module _ (env : Env) (net : Net) (sk : Sock) (normal_win now : ℕ) (p : IsPlannable net)
    (m : IsMeasured sk) where
  abbrev pre : ℕ
  pre =
      leo_calc_pre_us net (start_rwnd env net sk normal_win) (leo_min_rwnd env net sk)
        (planned_rate_Bps net sk)

  abbrev rtt : ℕ
  rtt = planned_rtt_us net sk

  ahead_eq :
      leo_required_freeze_ahead_us env net sk normal_win
      ≡ pre
        + rtt / 2
        + leo_calc_drain_us net rtt
        + net.leo_dynamic_freeze_guard_ms * 1000
        + leo_prediction_guard_us net
  unfolding leo_required_freeze_ahead_us
  ahead_eq = ground (
    arith,
    planned_rtt_us-lt net sk m,
    leo_calc_pre_us_bounds p (start_rwnd env net sk normal_win) (leo_min_rwnd env net sk)
        (planned_rate_Bps net sk),
    leo_calc_drain_us_bounds p (planned_rtt_us net sk),
    leo_prediction_guard_us_eq p,
  )

  -- What a freeze leaves is a snapshot in the sense of the timeline.
  pub leo_freeze_parameters-IsSnapshot :
      IsSnapshot (leo_freeze_parameters env net sk normal_win now)
  unfolding leo_freeze_parameters
  leo_freeze_parameters-IsSnapshot = ground (
    arith,
    planned_rtt_us-lt net sk m,
    leo_calc_pre_us_bounds p (start_rwnd env net sk normal_win) (leo_min_rwnd env net sk)
        (planned_rate_Bps net sk),
    leo_calc_drain_us_bounds p (planned_rtt_us net sk),
    leo_prediction_guard_us_eq p,
    leo_calc_outage_us-le net (planned_rtt_us net sk) sk.leo_state.rtt_baseline_us,
  )

  -- With plannable sysctls (`IsPlannable`), 32-bit RTTs and a clock of `IsClock`: a call that
  -- comes too early to freeze, the time to the predicted handover being longer than the required
  -- lead, comes before the PRE phase of the snapshot that it would take, by more than the freeze
  -- guard.
  pub freeze_is_early :
      IsClock net now
      → leo_required_freeze_ahead_us env net sk normal_win
        < period_us net - leo_period_position_us net now
      → leo_period_position_us net now + net.leo_dynamic_freeze_guard_ms * 1000
        < pre_start (period_us net) (leo_freeze_parameters env net sk normal_win now)
  unfolding leo_freeze_parameters
  freeze_is_early c early = ground (
    arith,
    ahead_eq,
    period_lt c,
    planned_rtt_us-lt net sk m,
    leo_calc_pre_us_bounds p (start_rwnd env net sk normal_win) (leo_min_rwnd env net sk)
        (planned_rate_Bps net sk),
    leo_calc_drain_us_bounds p (planned_rtt_us net sk),
    leo_prediction_guard_us_eq p,
  )
