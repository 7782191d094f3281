-- ===== src/Leo/Timeline/Wellformed.antt =====
-- `leo_phase` of redhat_kernel/tcp_redhat.c keeps the controller state well formed, and what its
-- result says of the state.
use starlink_tcp.Common.{ℕ, ◌≡◌, arith, true}
use starlink_tcp.Kernel.Net.{Net}
use starlink_tcp.Kernel.Sock.{LeoState}
use starlink_tcp.Leo.Inv.{IsValid}
use starlink_tcp.Leo.Measure.Keep.{SamePlan}
use starlink_tcp.Leo.Timeline.{leo_phase}
use starlink_tcp.Leo.Timeline.Order.{is_scheduled}

module _ (net : Net) (now : ℕ) (st : LeoState) where
  pub leo_phase-IsValid : IsValid st → IsValid (leo_phase net now st).2
  unfolding leo_phase
  leo_phase-IsValid v = ground arith

  -- A reducing phase needs a snapshot, and leaves the state alone.
  pub leo_phase-scheduled :
      is_scheduled (leo_phase net now st).0 ≡ true
      → (st.frozen ≡ true) × ((leo_phase net now st).2 ≡ st)
  unfolding leo_phase
  leo_phase-scheduled h = ground arith

  pub initialized-leo_phase : (leo_phase net now st).2.initialized ≡ st.initialized
  unfolding leo_phase
  initialized-leo_phase = ground arith

  -- No phase changes a frozen parameter.
  pub leo_phase-SamePlan : SamePlan st (leo_phase net now st).2
  unfolding leo_phase
  leo_phase-SamePlan = ground arith
