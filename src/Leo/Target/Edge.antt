-- ===== src/Leo/Target/Edge.antt =====
-- The targets of redhat_kernel/tcp_redhat.c against the right edge of the window at the anchor.
use starlink_tcp.Common.{
  lt-or-le, ℕ, ◌+◌, ◌-◌, ◌*◌, ◌^◌, ◌≤◌, ◌<◌, ◌≡◌, arith, min, max, true, mul64, ◌⊎◌, inl, inr,
}
use starlink_tcp.Kernel.Sock.{LeoState}
use starlink_tcp.Leo.Target.{received, leo_pre_target, leo_safe_target}
use starlink_tcp.Leo.Target.Ramp.{ramp, product_fits, ramp-le, ramp_full, ramp_mono}

-- A snapshot with its anchor set: 32-bit windows, the least below the anchor's.
pub record IsAnchored (st : LeoState) : Type 0 where
  pub started : st.pre_started ≡ true
  pub least : st.frozen_min_rwnd ≤ st.frozen_pre_start_wnd
  pub fits : st.frozen_pre_start_wnd < 2 ^ 32
  pub pre_fits : st.frozen_pre_us < 2 ^ 32

-- The part of the reduction that the schedule asks for by now.
abbrev pub planned : LeoState → ℕ → ℕ
planned st elapsed = ramp (st.frozen_pre_start_wnd - st.frozen_min_rwnd) st.frozen_pre_us elapsed

module _ {st : LeoState} (a : IsAnchored st) (rcv_nxt : ℕ) where
  pub leo_safe_target_lem :
      leo_safe_target rcv_nxt st st.frozen_min_rwnd
      ≡ max st.frozen_min_rwnd (st.frozen_pre_start_wnd - received rcv_nxt st)
  unfolding leo_safe_target
  leo_safe_target_lem = ground arith

  product_exact :
      (e : ℕ)
      → mul64 (st.frozen_pre_start_wnd - st.frozen_min_rwnd) (min e st.frozen_pre_us)
        ≡ (st.frozen_pre_start_wnd - st.frozen_min_rwnd) * min e st.frozen_pre_us
  product_exact e = omega (
    arith,
    product_fits (st.frozen_pre_start_wnd - st.frozen_min_rwnd) (min e st.frozen_pre_us)
        (omega arith) (omega arith),
  )

  -- The PRE target in one line: the anchor's window less the scheduled reduction, and no more than
  -- the bytes received since the anchor.
  pub leo_pre_target_lem :
      (elapsed : ℕ)
      → 0 < st.frozen_pre_us
      → leo_pre_target rcv_nxt st elapsed
        ≡ st.frozen_pre_start_wnd - min (planned st elapsed) (received rcv_nxt st)
  unfolding leo_pre_target
  leo_pre_target_lem elapsed h = ground (
    arith,
    product_exact elapsed,
    ramp-le (st.frozen_pre_start_wnd - st.frozen_min_rwnd) st.frozen_pre_us elapsed,
  )

  pre_safe :
      (elapsed : ℕ)
      → let target = leo_pre_target rcv_nxt st elapsed in
        (st.frozen_min_rwnd ≤ target)
        × (target ≤ st.frozen_pre_start_wnd)
        × (st.frozen_pre_start_wnd ≤ target + received rcv_nxt st)
  unfolding leo_pre_target
  pre_safe elapsed = ground (
    arith,
    product_exact elapsed,
    ramp-le (st.frozen_pre_start_wnd - st.frozen_min_rwnd) st.frozen_pre_us elapsed,
  )

  -- For a snapshot with its anchor (`IsAnchored`): while the window is reduced, in PRE, DRAIN and
  -- OUTAGE alike, its target stays between the least window and the anchor's, and its right edge
  -- does not fall behind the anchor's: the window shrinks by no more than the bytes received
  -- since.
  pub targets_safe :
      (elapsed target : ℕ)
      → (target ≡ leo_pre_target rcv_nxt st elapsed)
        ⊎ (target ≡ leo_safe_target rcv_nxt st st.frozen_min_rwnd)
      → (st.frozen_min_rwnd ≤ target)
        × (target ≤ st.frozen_pre_start_wnd)
        × (st.frozen_pre_start_wnd ≤ target + received rcv_nxt st)
  targets_safe elapsed target (inl e) = rw e (pre_safe elapsed)
  targets_safe elapsed target (inr e) = omega (arith, leo_safe_target_lem)

-- For a snapshot with its anchor (`IsAnchored`): as time passes and bytes arrive, neither target
-- ever grows, and the right edge of DRAIN and OUTAGE, their target and the bytes received, never
-- falls back.
pub targets_fall :
    {st : LeoState} (rcv_nxt rcv_nxt' elapsed elapsed' : ℕ)
    → IsAnchored st
    → received rcv_nxt st ≤ received rcv_nxt' st
    → elapsed ≤ elapsed'
    → (leo_pre_target rcv_nxt' st elapsed' ≤ leo_pre_target rcv_nxt st elapsed)
      × (leo_safe_target rcv_nxt' st st.frozen_min_rwnd
          ≤ leo_safe_target rcv_nxt st st.frozen_min_rwnd)
      × (leo_safe_target rcv_nxt st st.frozen_min_rwnd + received rcv_nxt st
          ≤ leo_safe_target rcv_nxt' st st.frozen_min_rwnd + received rcv_nxt' st)
targets_fall {st} rcv_nxt rcv_nxt' elapsed elapsed' a r e =
    let safe = leo_safe_target_lem a rcv_nxt in
    let safe' = leo_safe_target_lem a rcv_nxt' in
    (falls, omega (arith, safe, safe'), omega (arith, safe, safe'))
  where
    falls : leo_pre_target rcv_nxt' st elapsed' ≤ leo_pre_target rcv_nxt st elapsed
    falls = elim (lt-or-le 0 st.frozen_pre_us) [
      | inl on ↦ omega (
        arith,
        leo_pre_target_lem a rcv_nxt elapsed on,
        leo_pre_target_lem a rcv_nxt' elapsed' on,
        ramp_mono (st.frozen_pre_start_wnd - st.frozen_min_rwnd) st.frozen_pre_us elapsed elapsed'
            e,
      )
      | inr off ↦ unfold leo_pre_target in ground arith
    ]

-- For a snapshot with its anchor (`IsAnchored`) and a planned time above 0: once that time is over
-- and the difference of the two windows has been received, the PRE target has reached the least
-- window, and so has the target of the drain that follows.
pub leo_pre_target_complete :
    {st : LeoState} (rcv_nxt elapsed : ℕ)
    → IsAnchored st
    → 0 < st.frozen_pre_us
    → st.frozen_pre_us ≤ elapsed
    → st.frozen_pre_start_wnd - st.frozen_min_rwnd ≤ received rcv_nxt st
    → (leo_pre_target rcv_nxt st elapsed ≡ st.frozen_min_rwnd)
      × (leo_safe_target rcv_nxt st st.frozen_min_rwnd ≡ st.frozen_min_rwnd)
leo_pre_target_complete {st} rcv_nxt elapsed a h e r =
    let full : planned st elapsed ≡ st.frozen_pre_start_wnd - st.frozen_min_rwnd =
      ramp_full (st.frozen_pre_start_wnd - st.frozen_min_rwnd) st.frozen_pre_us elapsed h e in
    omega (arith, leo_pre_target_lem a rcv_nxt elapsed h, leo_safe_target_lem a rcv_nxt)
