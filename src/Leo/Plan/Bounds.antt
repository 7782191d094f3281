-- ===== src/Leo/Plan/Bounds.antt =====
-- The planned durations of redhat_kernel/tcp_redhat.c lie where the sysctls put them.
use native.Mathlib.Decide.{ℕ_discrete}
use starlink_tcp.Common.{ℕ, ◌-◌, ◌*◌, ◌/◌, ◌^◌, ◌≤◌, ◌<◌, ◌≡◌, arith, min, max, ◌⊎◌, inl, inr}
use starlink_tcp.Kernel.Net.{Net}
use starlink_tcp.Leo.Plan.{
  leo_calc_pre_us, leo_prediction_guard_us, leo_calc_drain_us, leo_calc_recovery_us,
  leo_calc_outage_us,
}

-- Milliseconds that are not negative and whose microseconds fit 32 bits: below 4294 seconds.
abbrev pub IsMs : ℕ → Type 0
IsMs x = x ≤ 4_000_000

-- The sysctls that plan a handover are such milliseconds.
pub record IsPlannable (net : Net) : Type 0 where
  pub pre_min : IsMs net.leo_dynamic_pre_min_ms
  pub pre_max : IsMs net.leo_dynamic_pre_max_ms
  pub drain_min : IsMs net.leo_dynamic_drain_min_ms
  pub drain_max : IsMs net.leo_dynamic_drain_max_ms
  pub outage_min : IsMs net.leo_dynamic_outage_min_ms
  pub outage_max : IsMs net.leo_dynamic_outage_max_ms
  pub outage_guard : IsMs net.leo_dynamic_outage_guard_ms
  pub recovery_min : IsMs net.leo_dynamic_recovery_min_ms
  pub recovery_max : IsMs net.leo_dynamic_recovery_max_ms
  pub freeze_guard : IsMs net.leo_dynamic_freeze_guard_ms
  pub prediction_guard : IsMs net.leo_dynamic_prediction_guard_ms

-- `x` milliseconds to `y` milliseconds, in either order.
abbrev pub Between : ℕ → ℕ → ℕ → Type 0
Between x y t = (min x y * 1000 ≤ t) × (t ≤ max x y * 1000)

module _ {net : Net} (p : IsPlannable net) where
  pub leo_calc_pre_us_bounds :
      (start least rate : ℕ)
      → Between
          (max 1 net.leo_dynamic_pre_min_ms)
          (max 1 net.leo_dynamic_pre_max_ms)
          (leo_calc_pre_us net start least rate)
  unfolding leo_calc_pre_us
  leo_calc_pre_us_bounds start least rate = ground arith

  pub leo_calc_drain_us_bounds :
      (rtt : ℕ)
      → Between net.leo_dynamic_drain_min_ms net.leo_dynamic_drain_max_ms
          (leo_calc_drain_us net rtt)
  unfolding leo_calc_drain_us
  leo_calc_drain_us_bounds rtt = ground arith

  pub leo_calc_recovery_us_bounds :
      (rtt : ℕ)
      → (net.leo_dynamic_recovery_enable ≡ 0) × (leo_calc_recovery_us net rtt ≡ 0)
        ⊎ Between net.leo_dynamic_recovery_min_ms net.leo_dynamic_recovery_max_ms
            (leo_calc_recovery_us net rtt)
  unfolding leo_calc_recovery_us
  leo_calc_recovery_us_bounds rtt = elim (ℕ_discrete net.leo_dynamic_recovery_enable 0) [
    | yes off ↦ inl (ground arith)
    | no on ↦ inr (ground arith)
  ]

  pub leo_prediction_guard_us_eq :
      leo_prediction_guard_us net ≡ net.leo_dynamic_prediction_guard_ms * 1000
  unfolding leo_prediction_guard_us
  leo_prediction_guard_us_eq = ground arith

-- The outage ends by the predicted handover, half an RTT after it begins.
pub leo_calc_outage_us-le : (net : Net) (rtt least : ℕ) → leo_calc_outage_us net rtt least ≤ rtt / 2
unfolding leo_calc_outage_us
leo_calc_outage_us-le net rtt least = ground arith

-- With plannable sysctls the PRE phase, the drain and the recovery last between their two
-- configured limits, in whichever order these are given (no recovery when it is disabled), and for
-- any sysctls the outage lasts half an RTT at most, so that it ends by the predicted handover.
durations_within :
    {net : Net}
    → IsPlannable net
    → (start least rate rtt baseline : ℕ)
    → Between
        (max 1 net.leo_dynamic_pre_min_ms)
        (max 1 net.leo_dynamic_pre_max_ms)
        (leo_calc_pre_us net start least rate)
      × Between net.leo_dynamic_drain_min_ms net.leo_dynamic_drain_max_ms
          (leo_calc_drain_us net rtt)
      × ((net.leo_dynamic_recovery_enable ≡ 0) × (leo_calc_recovery_us net rtt ≡ 0)
          ⊎ Between net.leo_dynamic_recovery_min_ms net.leo_dynamic_recovery_max_ms
              (leo_calc_recovery_us net rtt))
      × (leo_calc_outage_us net rtt baseline ≤ rtt / 2)
durations_within {net} p start least rate rtt baseline = (
  leo_calc_pre_us_bounds p start least rate,
  leo_calc_drain_us_bounds p rtt,
  leo_calc_recovery_us_bounds p rtt,
  leo_calc_outage_us-le net rtt baseline,
)

-- The wanted pre time, in microseconds: the bytes to shed at the measured rate.
abbrev pub shed_us : ℕ → ℕ → ℕ → ℕ
shed_us start least rate = (start - least) * 1000000 / rate

-- With plannable sysctls (`IsPlannable`), where the window, of 32 bits, has to shrink and a rate
-- is known, and the time to shed the difference at that rate lies between the two limits, the PRE
-- phase lasts exactly that time.
pub leo_calc_pre_us_exact :
    {net : Net} (start least rate : ℕ)
    → IsPlannable net
    → least < start
    → start < 2 ^ 32
    → 0 < rate
    → Between
        (max 1 net.leo_dynamic_pre_min_ms)
        (max 1 net.leo_dynamic_pre_max_ms)
        (shed_us start least rate)
    → leo_calc_pre_us net start least rate ≡ shed_us start least rate
unfolding leo_calc_pre_us
leo_calc_pre_us_exact start least rate p h f r b = ground arith
