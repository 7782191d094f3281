-- ===== src/Leo/Target/Recovery.antt =====
-- The recovery ramp of redhat_kernel/tcp_redhat.c, from the least window to the normal one.
use starlink_tcp.Common.{
  ℕ, ◌+◌, ◌-◌, ◌*◌, ◌^◌, ◌≤◌, ◌<◌, ◌≡◌, arith, min, max, mul64, inl, inr, lt-or-le,
}
use starlink_tcp.Kernel.Sock.{LeoState}
use starlink_tcp.Leo.Target.{leo_recovery_target}
use starlink_tcp.Leo.Target.Ramp.{ramp, product_fits, ramp-le, ramp_full, ramp_start, ramp_mono}

-- A ramp of 32-bit windows.
pub record IsRamp (st : LeoState) : Type 0 where
  pub start_fits : st.frozen_start_rwnd < 2 ^ 32
  pub least_fits : st.frozen_min_rwnd < 2 ^ 32
  pub recovery_fits : st.frozen_recovery_us < 2 ^ 32

-- Where the ramp ends.
abbrev pub end_wnd : LeoState → ℕ → ℕ
end_wnd st normal_win = max (min normal_win st.frozen_start_rwnd) st.frozen_min_rwnd

module _ {st : LeoState} (r : IsRamp st) (normal_win : ℕ) where
  rise : ℕ → ℕ
  rise e = ramp (end_wnd st normal_win - st.frozen_min_rwnd) st.frozen_recovery_us e

  rise_exact :
      (e : ℕ)
      → mul64 (end_wnd st normal_win - st.frozen_min_rwnd) (min e st.frozen_recovery_us)
        ≡ (end_wnd st normal_win - st.frozen_min_rwnd) * min e st.frozen_recovery_us
  rise_exact e = omega (
    arith,
    product_fits (end_wnd st normal_win - st.frozen_min_rwnd) (min e st.frozen_recovery_us)
        (omega arith) (omega arith),
  )

  leo_recovery_target_lem :
      (e : ℕ)
      → 0 < st.frozen_recovery_us
      → leo_recovery_target st normal_win e ≡ st.frozen_min_rwnd + rise e
  unfolding leo_recovery_target rise
  leo_recovery_target_lem e h = ground (
    arith,
    rise_exact e,
    ramp-le (end_wnd st normal_win - st.frozen_min_rwnd) st.frozen_recovery_us e,
  )

  -- For 32-bit windows and times (`IsRamp`): while the window recovers, its target lies between
  -- the least window and the end of the ramp.
  pub leo_recovery_target_bounds :
      (e : ℕ)
      → (st.frozen_min_rwnd ≤ leo_recovery_target st normal_win e)
        × (leo_recovery_target st normal_win e ≤ end_wnd st normal_win)
  unfolding leo_recovery_target
  leo_recovery_target_bounds e = ground (
    arith,
    rise_exact e,
    ramp-le (end_wnd st normal_win - st.frozen_min_rwnd) st.frozen_recovery_us e,
  )

  rise_mono : (e later : ℕ) → e ≤ later → rise e ≤ rise later
  unfolding rise
  rise_mono e later h =
      ramp_mono (end_wnd st normal_win - st.frozen_min_rwnd) st.frozen_recovery_us e later h

  -- For 32-bit windows and times (`IsRamp`): the ramp never falls as time goes on.
  pub leo_recovery_target_mono :
      (e later : ℕ)
      → e ≤ later
      → leo_recovery_target st normal_win e ≤ leo_recovery_target st normal_win later
  leo_recovery_target_mono e later h = elim (lt-or-le 0 st.frozen_recovery_us) [
    | inl on ↦
        omega (
          arith,
          leo_recovery_target_lem e on,
          leo_recovery_target_lem later on,
          rise_mono e later h,
        )
    | inr off ↦ unfold leo_recovery_target in ground arith
  ]

-- For 32-bit windows and times (`IsRamp`) and a planned time above 0: the ramp starts at the least
-- window and, once that time is over, is at its end: the normal window, or the window of the
-- snapshot if that is smaller (the least window at least).
leo_recovery_target_ends :
    {st : LeoState} (normal_win elapsed : ℕ)
    → IsRamp st
    → 0 < st.frozen_recovery_us
    → st.frozen_recovery_us ≤ elapsed
    → (leo_recovery_target st normal_win 0 ≡ st.frozen_min_rwnd)
      × (leo_recovery_target st normal_win elapsed
          ≡ max (min normal_win st.frozen_start_rwnd) st.frozen_min_rwnd)
unfolding rise
leo_recovery_target_ends {st} normal_win elapsed r h e = omega (
  arith,
  leo_recovery_target_lem r normal_win 0 h,
  leo_recovery_target_lem r normal_win elapsed h,
  ramp_full (end_wnd st normal_win - st.frozen_min_rwnd) st.frozen_recovery_us elapsed h e,
  ramp_start (end_wnd st normal_win - st.frozen_min_rwnd) st.frozen_recovery_us h,
)
