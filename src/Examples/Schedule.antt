-- ===== src/Examples/Schedule.antt =====
-- Runs of the handover clock, the plan, the snapshot and the timeline of
-- redhat_kernel/tcp_redhat.c.
use starlink_tcp.Common.{◌≡◌, ◌+◌, ◌-◌, ◌<◌, inl, arith, true, refl}
use starlink_tcp.Examples.{defaults, at_us, shrinking, socket}
use starlink_tcp.Leo.Freeze.{
  leo_required_freeze_ahead_us, leo_freeze_parameters, leo_maybe_freeze, start_rwnd, planned_rtt_us,
  planned_rate_Bps,
}
use starlink_tcp.Leo.Freeze.Early.{freeze_is_early, IsMeasured}
use starlink_tcp.Leo.Freeze.Keep.{leo_maybe_freeze_keeps}
use starlink_tcp.Leo.Measure.{leo_min_rwnd}
use starlink_tcp.Leo.Period.{period_us, leo_period_position_us}
use starlink_tcp.Leo.Period.Clock.{IsClock}
use starlink_tcp.Leo.Plan.{leo_calc_pre_us, leo_calc_drain_us, leo_prediction_guard_us}
use starlink_tcp.Leo.Plan.Bounds.{IsPlannable}
use starlink_tcp.Leo.Timeline.{pre_start, scheduled_phase}
use starlink_tcp.Leo.Timeline.Order.{IsSnapshot, is_scheduled, scheduled_interval}

clock : IsClock defaults 26_000_000
clock = omega arith

plannable : IsPlannable defaults
plannable = omega arith

measured : IsMeasured socket
measured = omega arith

-- A second before the handover it is too early to freeze.
early :
    leo_required_freeze_ahead_us (at_us 26_000_000) defaults socket 1_200_000
    < period_us defaults - leo_period_position_us defaults 26_000_000
early =
    unfold leo_required_freeze_ahead_us start_rwnd planned_rtt_us planned_rate_Bps leo_calc_pre_us
      leo_calc_drain_us leo_prediction_guard_us leo_min_rwnd leo_period_position_us in
    omega arith

freeze_is_early_example :
    leo_period_position_us defaults 26_000_000 + 50_000
    < pre_start 15_000_000
        (leo_freeze_parameters (at_us 26_000_000) defaults socket 1_200_000 26_000_000)
freeze_is_early_example =
    freeze_is_early (at_us 26_000_000) defaults socket 1_200_000 26_000_000 plannable measured clock
      early

leo_maybe_freeze_keeps_example :
    leo_maybe_freeze (at_us 26_930_000) defaults socket 1_200_000 26_930_000 ≡ shrinking
leo_maybe_freeze_keeps_example =
    leo_maybe_freeze_keeps (at_us 26_930_000) defaults socket 1_200_000 26_930_000
      (refl, inl (refl, inl (omega arith)))

snapshot : IsSnapshot shrinking
snapshot = omega arith

scheduled_interval_example : is_scheduled (scheduled_phase 15_000_000 14_950_000 shrinking).0 ≡ true
scheduled_interval_example = scheduled_interval snapshot 15_000_000 14_950_000 (omega arith)
