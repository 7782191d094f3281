-- ===== src/Leo/Dynamic/Reach.antt =====
-- Every history of a socket under redhat_kernel/tcp_redhat.c: `tcp_leo_dynamic_init`, and then any
-- calls of `tcp_leo_dynamic_target`, with the sysctls, the clocks and the rest of the socket
-- changing as they will between the calls.
use starlink_tcp.Common.{ℕ, ◌≡◌, true}
use starlink_tcp.Kernel.Net.{Net}
use starlink_tcp.Kernel.Sock.{Sock, Env, LeoState}
use starlink_tcp.Leo.Dynamic.{tcp_leo_dynamic_init, tcp_leo_dynamic_target, leo_active}
use starlink_tcp.Leo.Dynamic.Safe.{Safe, tcp_leo_dynamic_target-Safe}
use starlink_tcp.Leo.Dynamic.Wellformed.{
  IsCall, tcp_leo_dynamic_init-Inv, tcp_leo_dynamic_target-Inv,
}
use starlink_tcp.Leo.Inv.{Inv}

pub data Reach : LeoState → Type 0 where
  init : (sk : Sock) → Reach (tcp_leo_dynamic_init sk).leo_state
  call :
      {st st' : LeoState}
      → Reach st
      → (env : Env) (net : Net) (sk : Sock) (normal_win : ℕ) → sk.leo_state ≡ st
      → IsCall sk normal_win
      → st' ≡ (tcp_leo_dynamic_target env net sk normal_win).0.leo_state
      → Reach st'

pub Reach-Inv : {st : LeoState} → Reach st → Inv st
Reach-Inv (init sk) = tcp_leo_dynamic_init-Inv sk
Reach-Inv (call r env net sk normal_win e c e') =
    rw e' (tcp_leo_dynamic_target-Inv env net sk normal_win c (rw e (Reach-Inv r)))

-- After any history, the next call on a controlled socket, with a 32-bit window and RTT, returns
-- the normal window in NORMAL, and in every other phase a window that keeps to the least window of
-- the snapshot and, in PRE, DRAIN and OUTAGE, to the right edge of the anchor, both up to the
-- normal window, which it never exceeds.
pub Reach-Safe :
    {st : LeoState}
    → Reach st
    → (env : Env) (net : Net) (sk : Sock) (normal_win : ℕ) → sk.leo_state ≡ st
    → IsCall sk normal_win
    → leo_active env net sk ≡ true
    → let (sk', target) = tcp_leo_dynamic_target env net sk normal_win in
      Safe sk'.leo_state.current_phase sk'.leo_state sk.rcv_nxt normal_win target
Reach-Safe r env net sk normal_win e c on =
    tcp_leo_dynamic_target-Safe env net sk normal_win c (rw e (Reach-Inv r)) on
