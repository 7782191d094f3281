-- ===== src/Window/Space/Bounds.antt =====
-- The window that the memory allows (redhat_kernel/tcp_output.c) is no larger than the memory.
use starlink_tcp.Common.{◌≡◌, arith, refl, Bool, if◌then◌else◌, true, false}
use starlink_tcp.Common.Int.{ℤ}
use starlink_tcp.Kernel.Net.{Net}
use starlink_tcp.Kernel.Sock.{Sock}
use starlink_tcp.Window.Space.{
  mss_of, full_space_of, Memory, tighten, steady_window, shrink_window_allowed, select_space,
  tcp_select_window_raw,
}

-- Only the quick-ACK count and the threshold change.
abbrev pub SameButSpace : Sock → Sock → Type 0
SameButSpace sk sk' = sk' ≡ record sk { quick = sk'.quick; rcv_ssthresh = sk'.rcv_ssthresh }

tighten-SameButSpace :
    (m : Memory) (sk : Sock) (low : Bool) → SameButSpace sk (if low then tighten m sk else sk)
unfolding tighten
tighten-SameButSpace m sk true = ground arith
tighten-SameButSpace m sk false = refl

module _ (m : Memory) (sk : Sock) (mss full_space : ℤ) where
  steady_window-Same : SameButSpace sk (steady_window m sk mss full_space).1
  unfolding steady_window
  steady_window-Same = tighten-SameButSpace m sk _

  shrink_window_allowed-Same : SameButSpace sk (shrink_window_allowed m sk mss full_space).1
  unfolding shrink_window_allowed
  shrink_window_allowed-Same = tighten-SameButSpace m sk _

select_space-Same : (m : Memory) (net : Net) (sk : Sock) → SameButSpace sk (select_space m net sk).1
unfolding select_space
select_space-Same m net sk = ground (
  arith,
  steady_window-Same m sk (mss_of m sk) (full_space_of m sk),
  shrink_window_allowed-Same m sk (mss_of m sk) (full_space_of m sk),
)

pub tcp_select_window_raw-SameButSpace :
    (m : Memory) (net : Net) (sk : Sock) → SameButSpace sk (tcp_select_window_raw m net sk).1
unfolding tcp_select_window_raw
tcp_select_window_raw-SameButSpace m net sk = select_space-Same m net sk
