-- ===== src/Leo/Inv.antt =====
-- What redhat_kernel/tcp_redhat.c keeps true of a socket's controller state between two calls.
use starlink_tcp.Common.{◌^◌, ◌≤◌, ◌<◌, ◌≡◌, ◌⊎◌, true, false}
use starlink_tcp.Kernel.Sock.{LeoState}
use starlink_tcp.Leo.Target.Recovery.{IsRamp}
use starlink_tcp.Leo.Timeline.Order.{IsSnapshot, is_scheduled}

-- The two windows of the snapshot are in order, and so is the anchor between them if it is set.
pub record IsOrdered (st : LeoState) : Type 0 where
  pub least : st.frozen_min_rwnd ≤ st.frozen_start_rwnd
  pub reduction :
      (st.pre_started ≡ false)
      ⊎ (st.frozen_min_rwnd ≤ st.frozen_pre_start_wnd)
        × (st.frozen_pre_start_wnd ≤ st.frozen_start_rwnd)

pub record IsValid (st : LeoState) : Type 0 where
  pub rtt : st.rtt_us < 2 ^ 32
  pub snapshot : IsSnapshot st
  pub ramp : IsRamp st
  pub ordered : IsOrdered st

-- Between two calls a reducing phase has a snapshot and an anchor.
pub record Inv (st : LeoState) : Type 0 where
  pub valid : IsValid st
  pub phase : (is_scheduled st.current_phase ≡ false) ⊎ (st.frozen ≡ true) × (st.pre_started ≡ true)
