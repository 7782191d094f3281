-- ===== src/Leo/Period/Clock.antt =====
-- The handover clock of redhat_kernel/tcp_redhat.c as one division with remainder.
use native.Mathlib.Nat.{div-add-mod', mod-lt}
use starlink_tcp.Common.{
  ℕ, ◌+◌, ◌-◌, ◌*◌, ◌/◌, ◌%◌, ◌^◌, ◌≤◌, ◌<◌, ◌≡◌, arith, ap, inl, inr, lt-or-le, sub64, add64,
}
use starlink_tcp.Kernel.Net.{Net}
use starlink_tcp.Leo.Period.{period_us, offset_us, leo_period_position_us, leo_period_id}

-- Quotients are ordered as what is divided.
split_le : (q r q' r' p : ℕ) → r < p → r' < p → q * p + r ≤ q' * p + r' → q ≤ q'
split_le q r q' r' p h h' e = elim (lt-or-le q' q) [ inl lt ↦ absurd (grind arith) | inr le ↦ le ]

pub split_unique :
    (q r q' r' p : ℕ) → r < p → r' < p → q * p + r ≡ q' * p + r' → (q ≡ q') × (r ≡ r')
split_unique q r q' r' p h h' e =
    let same : q ≡ q' =
      omega
        (arith, split_le q r q' r' p h h' (omega arith), split_le q' r' q r p h' h (omega arith)) in
    (same, omega (arith, ap (λ (t : ℕ). t * p) same))

-- A period that is not 0, sysctls of 32 bits, and a clock far from its 64-bit end.
pub record IsClock (net : Net) (now : ℕ) : Type 0 where
  pub ticks : 0 < net.leo_rwnd_period_ms
  pub period_fits : net.leo_rwnd_period_ms < 2 ^ 32
  pub offset_fits : net.leo_rwnd_offset_ms < 2 ^ 32
  pub now_fits : now < 2 ^ 63

-- The time that is divided by the period.
abbrev pub shifted : Net → ℕ → ℕ
shifted net now = now + period_us net - offset_us net % period_us net

module _ {net : Net} {now : ℕ} (c : IsClock net now) where
  pub period_pos : 0 < period_us net
  period_pos = omega arith

  pub period_lt : period_us net < 2 ^ 42
  period_lt = omega arith

  pub offset_lt : offset_us net % period_us net < period_us net
  offset_lt = mod-lt _ period_pos

  no_wrap : sub64 (add64 now (period_us net)) (offset_us net % period_us net) ≡ shifted net now
  no_wrap = omega (arith, offset_lt, period_lt)

  pub position_eq : leo_period_position_us net now ≡ shifted net now % period_us net
  unfolding leo_period_position_us
  position_eq = ground (arith, no_wrap, period_pos)

  pub id_eq : leo_period_id net now ≡ shifted net now / period_us net
  unfolding leo_period_id
  id_eq = ground (arith, no_wrap, period_pos)

  -- For a clock of `IsClock`: time, and a period, less the offset is so many whole periods and the
  -- position in the current one, which is below the period.
  pub clock_splits :
      (leo_period_id net now * period_us net + leo_period_position_us net now ≡ shifted net now)
      × (leo_period_position_us net now < period_us net)
  clock_splits =
      rw (position_eq, id_eq) (div-add-mod' (shifted net now) (period_us net), mod-lt _ period_pos)

-- For a clock of `IsClock` at both times: until the predicted handover the period number stays,
-- and the position counts the microseconds.
pub same_period :
    {net : Net} {now : ℕ} (d : ℕ)
    → IsClock net now
    → IsClock net (now + d)
    → leo_period_position_us net now + d < period_us net
    → (leo_period_id net (now + d) ≡ leo_period_id net now)
      × (leo_period_position_us net (now + d) ≡ leo_period_position_us net now + d)
same_period {net} {now} d c c' h =
    split_unique _ _ _ _ (period_us net) (clock_splits c').1 h
      (omega (arith, clock_splits c, clock_splits c', offset_lt c))

-- For a clock of `IsClock` at both times: at the handover the next period begins, at position 0.
next_period :
    {net : Net} {now : ℕ}
    → IsClock net now
    → let until = period_us net - leo_period_position_us net now in
      IsClock net (now + until)
      → (leo_period_id net (now + until) ≡ leo_period_id net now + 1)
        × (leo_period_position_us net (now + until) ≡ 0)
next_period {net} {now} c c' =
    split_unique _ _ _ _ (period_us net) (clock_splits c').1 (period_pos c)
      (grind (arith, clock_splits c, clock_splits c', offset_lt c))

-- For a clock of `IsClock` at both times: the period number never goes back while the clock does
-- not.
pub leo_period_id_mono :
    {net : Net} {now later : ℕ}
    → IsClock net now
    → IsClock net later
    → now ≤ later
    → leo_period_id net now ≤ leo_period_id net later
leo_period_id_mono {net} {now} {later} c c' h =
    split_le _ _ _ _ (period_us net) (clock_splits c).1 (clock_splits c').1
      (omega (arith, clock_splits c, clock_splits c', offset_lt c))
