-- ===== src/Pop/Life.antt =====
-- `main` of bin/app_layer_rtt/tcp_ping_receiver_pop.c: the socket, the child that pings, and what
-- becomes of them on every path.
pub mod Release
use starlink_tcp.Common.{
  ℕ, zero, suc, Bool, true, false, ◌&&◌, ◌||◌, not, List, [], ◌∷◌, ◌++◌, Option, none, some, ◌==◌,
  if◌then◌else◌,
}

-- The calls that take or give back something. A process is named by its number.
pub data Call : Type 0 where
  open_socket close_socket : Call
  fork kill_term kill_kill wait_child : ℕ → Call
  plot : Call

-- `pop_ping_pid`, where `none` is -1, and the calls so far.
pub record Process : Type 0 where
  pub pop_ping_pid : Option ℕ
  pub calls : List Call

abbrev pub do_call : Call → Process → Process
do_call c p = record p { calls = p.calls ++ (c ∷ []) }

-- `fork` returns a positive number in the parent, or fails.
start_pop_ping_child : Option ℕ → Process → Process
start_pop_ping_child none p = p
start_pop_ping_child (some pid) p = record (do_call (fork pid) p) { pop_ping_pid = some pid }

stop_child : Option ℕ → Process → Process
stop_child none p = p
stop_child (some pid) p =
    record (do_call (wait_child pid) (do_call (kill_kill pid) (do_call (kill_term pid) p))) {
      pop_ping_pid = none;
    }

stop_pop_ping_child : Process → Process
unfolding stop_child
stop_pop_ping_child p = stop_child p.pop_ping_pid p

abbrev pub eq_text : List ℕ → List ℕ → Bool
eq_text [] [] = true
eq_text (x ∷ xs) (y ∷ ys) = x == y && eq_text xs ys
eq_text _ _ = false

-- The three names for any local address: "any", "0.0.0.0" and "-".
abbrev pub any_address : List ℕ → Bool
any_address ip =
    eq_text ip (b'a' ∷ b'n' ∷ b'y' ∷ [])
    || eq_text ip (b'0' ∷ b'.' ∷ b'0' ∷ b'.' ∷ b'0' ∷ b'.' ∷ b'0' ∷ [])
    || eq_text ip (b'-' ∷ [])

-- How the calls that `main` makes turn out.
pub record Setup : Type 0 where
  pub argc : ℕ
  pub local_ip : List ℕ
  pub server_ip : List ℕ
  pub inet_pton : List ℕ → Bool
  pub socket_ok : Bool
  pub bind_ok : Bool
  pub connect_ok : Bool
  pub pop_ip : Option (List ℕ)
  pub forked : Option ℕ

-- The child is started if an address was found.
begin_child : Option (List ℕ) → Option ℕ → Process → Process
unfolding start_pop_ping_child
begin_child none forked p = p
begin_child (some ip) forked p = start_pop_ping_child forked p

-- After the connection: the child, the loop (which comes to an end), and what follows it.
pub connected : Option (List ℕ) → Option ℕ → Process → Process
unfolding begin_child stop_pop_ping_child
connected pop_ip forked p =
    do_call plot (stop_pop_ping_child (do_call close_socket (begin_child pop_ip forked p)))

-- `main`: the process at its end, and the exit code.
pub main : Setup → Process × ℕ
unfolding connected
main s =
    let fresh : Process = record { pop_ping_pid = none; calls = [] } in
    let opened = do_call open_socket fresh in
    let local_ok = any_address s.local_ip || s.inet_pton s.local_ip in
    if not (s.argc == 4) && not (s.argc == 5)
    then (fresh, 1)
    else if not s.socket_ok
    then (fresh, 1)
    else if not local_ok || not s.bind_ok || not (s.inet_pton s.server_ip) || not s.connect_ok
    then (do_call close_socket opened, 1)
    else (connected s.pop_ip s.forked opened, 0)
