-- ===== src/Window/Fixed/Clock.antt =====
-- The clock of the fixed controller (redhat_kernel/tcp_output.c) is that of the dynamic one
-- (redhat_kernel/tcp_redhat.c), in whole milliseconds.
use native.Mathlib.Nat.{div-add-mod', mod-lt}
use starlink_tcp.Common.{ℕ, ◌+◌, ◌-◌, ◌*◌, ◌/◌, ◌%◌, ◌<◌, ◌≡◌, arith, ap, inl, inr, lt-or-le}
use starlink_tcp.Kernel.Net.{Net}
use starlink_tcp.Kernel.Sock.{Env}
use starlink_tcp.Leo.Dynamic.{leo_now_real_us}
use starlink_tcp.Leo.Period.{period_us, offset_us, leo_period_position_us, leo_period_id}
use starlink_tcp.Leo.Period.Clock.{IsClock, clock_splits, split_unique, offset_lt}
use starlink_tcp.Window.Fixed.{tcp_leo_rwnd_phase_ms}

module _ (env : Env) {net : Net} (c : IsClock net (leo_now_real_us env)) where
  period_exact : period_us net ≡ net.leo_rwnd_period_ms * 1000
  period_exact = omega (arith, c.period_fits)

  abbrev now_ms : ℕ
  now_ms = env.real_ns / 1000000

  remainders :
      (now_ms % net.leo_rwnd_period_ms < net.leo_rwnd_period_ms)
      × (net.leo_rwnd_offset_ms % net.leo_rwnd_period_ms < net.leo_rwnd_period_ms)
  remainders = (mod-lt _ c.ticks, mod-lt _ c.ticks)

  pub tcp_leo_rwnd_phase_ms-lt : tcp_leo_rwnd_phase_ms env net < net.leo_rwnd_period_ms
  unfolding tcp_leo_rwnd_phase_ms
  tcp_leo_rwnd_phase_ms-lt = ground (arith, remainders, c.period_fits)

  -- Milliseconds less the offset: whole periods and the phase.
  phase_splits :
      (q : ℕ) × (now_ms + net.leo_rwnd_period_ms - net.leo_rwnd_offset_ms % net.leo_rwnd_period_ms
        ≡ q * net.leo_rwnd_period_ms + tcp_leo_rwnd_phase_ms env net)
  unfolding tcp_leo_rwnd_phase_ms
  phase_splits =
      elim (lt-or-le (now_ms % net.leo_rwnd_period_ms)
        (net.leo_rwnd_offset_ms % net.leo_rwnd_period_ms)) [
          | inl before ↦ (
            now_ms / net.leo_rwnd_period_ms,
            ground (arith, remainders, c.period_fits, div-add-mod' now_ms net.leo_rwnd_period_ms),
          )
          | inr after ↦ (
            now_ms / net.leo_rwnd_period_ms + 1,
            ground (arith, remainders, c.period_fits, div-add-mod' now_ms net.leo_rwnd_period_ms),
          )
        ]

  offset_exact :
      offset_us net % period_us net ≡ net.leo_rwnd_offset_ms % net.leo_rwnd_period_ms * 1000
  offset_exact =
      (split_unique (offset_us net / period_us net) (offset_us net % period_us net)
        (net.leo_rwnd_offset_ms / net.leo_rwnd_period_ms)
        (net.leo_rwnd_offset_ms % net.leo_rwnd_period_ms * 1000) (period_us net) (offset_lt c)
        (omega (arith, remainders, period_exact)) whole).1
    where
      whole :
          offset_us net / period_us net * period_us net + offset_us net % period_us net
          ≡ net.leo_rwnd_offset_ms / net.leo_rwnd_period_ms * period_us net
            + net.leo_rwnd_offset_ms % net.leo_rwnd_period_ms * 1000
      whole = omega (
        arith,
        div-add-mod' (offset_us net) (period_us net),
        c.offset_fits,
        div-add-mod' net.leo_rwnd_offset_ms net.leo_rwnd_period_ms,
        ap (λ (t : ℕ). net.leo_rwnd_offset_ms / net.leo_rwnd_period_ms * t) period_exact,
      )

  -- For a clock of `IsClock`, both controllers see the handover cycle from one clock: the dynamic
  -- controller's position is the fixed controller's phase, in microseconds, and the microseconds
  -- within the millisecond.
  pub clocks_agree :
      leo_period_position_us net (leo_now_real_us env)
      ≡ tcp_leo_rwnd_phase_ms env net * 1000 + leo_now_real_us env % 1000
  clocks_agree =
      (split_unique (leo_period_id net (leo_now_real_us env))
        (leo_period_position_us net (leo_now_real_us env)) phase_splits.0
        (tcp_leo_rwnd_phase_ms env net * 1000 + leo_now_real_us env % 1000) (period_us net)
        (clock_splits c).1 (omega (arith, tcp_leo_rwnd_phase_ms-lt, period_exact)) whole).1
    where
      whole :
          leo_period_id net (leo_now_real_us env) * period_us net
            + leo_period_position_us net (leo_now_real_us env)
          ≡ phase_splits.0 * period_us net
            + (tcp_leo_rwnd_phase_ms env net * 1000 + leo_now_real_us env % 1000)
      whole = omega (
        arith,
        clock_splits c,
        offset_exact,
        phase_splits.1,
        remainders,
        ap (λ (t : ℕ). phase_splits.0 * t) period_exact,
        period_exact,
      )
