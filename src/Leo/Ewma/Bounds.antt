-- ===== src/Leo/Ewma/Bounds.antt =====
-- The averages of redhat_kernel/tcp_redhat.c stay between the old value and the sample.
use native.Mathlib.Nat.{pow-suc}
use starlink_tcp.Common.{
  ℕ, zero, suc, ◌+◌, ◌-◌, ◌/◌, ◌^◌, ◌≤◌, ◌<◌, ◌≡◌, inl, inr, arith, min, max, clamp, refl, ◌==◌,
  Bool-cases, lt-or-le, if◌then◌else◌,
}
use starlink_tcp.Leo.Ewma.{leo_ewma_u32, leo_ewma_u64}

div-suc : (n k : ℕ) → 0 < k → (n + 1) / k ≤ n / k + 1
div-suc n k h = grind arith

-- A quotient grows no faster than its dividend.
div-le-add : (n d m k : ℕ) → 0 < k → m ≡ n + d → m / k ≤ n / k + d
div-le-add n zero m k h e = let e' : m ≡ n = omega arith in rw e' (omega arith)
div-le-add n (suc d) m k h e =
    let e' : m ≡ n + d + 1 = omega arith in
    rw e' (omega (arith, div-le-add n d (n + d) k h refl, div-suc (n + d) k h))

div-le : (n k : ℕ) → 0 < k → n / k ≤ n
div-le n k h = grind arith

-- One step of the average, for any divisor.
abbrev pub smooth : ℕ → ℕ → ℕ → ℕ
smooth old sample k = old - old / k + sample / k

-- A quotient is monotone.
div_mono : (a b k : ℕ) → a ≤ b → a / k ≤ b / k
div_mono a b k h = grind arith

smooth_between :
    (old sample k : ℕ)
    → 0 < k
    → (min old sample ≤ smooth old sample k) × (smooth old sample k ≤ max old sample)
smooth_between old sample k h = elim (lt-or-le old sample) [
  | inl up ↦ omega (
    arith,
    div-le-add old (sample - old) sample k h (omega arith),
    div-le old k h,
    div_mono old sample k (omega arith),
  )
  | inr down ↦ omega (
    arith,
    div-le-add sample (old - sample) old k h (omega arith),
    div-le old k h,
    div_mono sample old k down,
  )
]

pub pow_pos : (s : ℕ) → 0 < 2 ^ s
pow_pos zero = omega arith
pow_pos (suc s) = rw pow-suc (omega (arith, pow_pos s))

module _ (old sample shift : ℕ) where
  abbrev divisor : ℕ
  divisor = 2 ^ clamp shift 1 8

  between :
      (min old sample ≤ smooth old sample divisor) × (smooth old sample divisor ≤ max old sample)
  between = smooth_between old sample divisor (pow_pos (clamp shift 1 8))

  -- A 32-bit average does not wrap: it is the sample at first, and then a step of the average.
  pub leo_ewma_u32_lem :
      old < 2 ^ 32
      → sample < 2 ^ 32
      → leo_ewma_u32 old sample shift ≡ (if old == 0 then sample else smooth old sample divisor)
  unfolding leo_ewma_u32
  leo_ewma_u32_lem ho hs = elim (Bool-cases (old == 0)) [
    | inl e ↦ rw e
    | inr e ↦ rw e (omega (arith, between, div-le old divisor (pow_pos (clamp shift 1 8))))
  ]

  -- The average of two 32-bit values lies between the old value and the sample, both included, for
  -- every shift.
  pub leo_ewma_u32_bounds :
      old < 2 ^ 32
      → sample < 2 ^ 32
      → (min old sample ≤ leo_ewma_u32 old sample shift)
        × (leo_ewma_u32 old sample shift ≤ max old sample)
  leo_ewma_u32_bounds ho hs = ground (arith, leo_ewma_u32_lem ho hs, between)

  -- The average of two 64-bit values lies between the old value and the sample, both included, for
  -- every shift.
  pub leo_ewma_u64_bounds :
      old < 2 ^ 64
      → sample < 2 ^ 64
      → (min old sample ≤ leo_ewma_u64 old sample shift)
        × (leo_ewma_u64 old sample shift ≤ max old sample)
  unfolding leo_ewma_u64
  leo_ewma_u64_bounds ho hs =
      ground (arith, between, div-le old divisor (pow_pos (clamp shift 1 8)))
