-- ===== src/Pop/Life/Release.antt =====
-- `main` of bin/app_layer_rtt/tcp_ping_receiver_pop.c gives back what it took.
use starlink_tcp.Common.{
  ℕ, ◌≡◌, arith, ◌==◌, if◌then◌else◌, Bool, true, false, List, [], ◌∷◌, Option, none, some,
}
use starlink_tcp.Pop.Life.{
  Call, open_socket, close_socket, fork, kill_term, kill_kill, wait_child, plot, Process, Setup,
  connected, main,
}

-- How far a child has been stopped.
pub data Child : Type 0 where
  absent : Child
  running asked killed : ℕ → Child

-- What a process holds after its calls: the socket, and the child.
pub record Held : Type 0 where
  pub socket : Bool
  pub child : Child

-- A call made in a wrong state breaks the protocol: a socket is closed only if it is open, one child
-- runs at a time, it is killed only after it was asked to end, and it is waited for only after it
-- was killed, since the wait may not end otherwise.
pub data Use : Type 0 where
  holds : Held → Use
  misuse : Use

abbrev pub hold : Bool → Child → Use
hold socket child = holds (record { socket = socket; child = child })

use_call : Call → Bool → Child → Use
use_call open_socket false child = hold true child
use_call close_socket true child = hold false child
use_call (fork pid) socket absent = hold socket (running pid)
use_call (kill_term pid) socket (running child) =
    if pid == child then hold socket (asked child) else misuse
use_call (kill_kill pid) socket (asked child) =
    if pid == child then hold socket (killed child) else misuse
use_call (wait_child pid) socket (killed child) =
    if pid == child then hold socket absent else misuse
use_call plot socket child = hold socket child
use_call _ _ _ = misuse

pub uses : List Call → Use → Use
unfolding use_call
uses calls misuse = misuse
uses [] (holds h) = holds h
uses (c ∷ calls) (holds h) = uses calls (use_call c h.socket h.child)

-- The process holds nothing, and has come there by the protocol.
pub record IsReleased (p : Process) : Type 0 where
  pub held : uses p.calls (hold false absent) ≡ hold false absent
  pub no_child : p.pop_ping_pid ≡ none

connected-IsReleased :
    (pop_ip : Option (List ℕ)) (forked : Option ℕ) {p : Process}
    → p.calls ≡ open_socket ∷ []
    → p.pop_ping_pid ≡ none
    → IsReleased (connected pop_ip forked p)
unfolding connected uses
connected-IsReleased none forked e q = ground arith
connected-IsReleased (some ip) none e q = ground arith
connected-IsReleased (some ip) (some pid) e q = ground arith

-- Wherever `main` comes to its end, errors of its calls included, its socket is closed, and its child,
-- if it started one, was sent SIGTERM, then SIGKILL, and was then waited for; it never closes,
-- starts, signals or waits for one out of turn. The loop is taken to end, and no signal to end the
-- process.
pub main-IsReleased : (s : Setup) → IsReleased (main s).0
unfolding main uses
main-IsReleased s = ground (arith, connected-IsReleased s.pop_ip s.forked)
