-- ===== src/Echo.antt =====
-- The TCP echo receiver, bin/app_layer_rtt/tcp_ping_receiver.c: `read_all`, `write_all` and the
-- loop that sends every ping back. What the socket calls return comes as a script; a call that the
-- script does not cover waits.
pub mod Exact
pub mod Refine
use starlink_tcp.Common.{
  ℕ, zero, suc, List, [], ◌∷◌, ◌++◌, ◌==◌, if◌then◌else◌, sub64, length, take, drop,
}

-- What one `recv` returns: some bytes, of which the first stands apart, 0 at the end of the
-- stream, or -1 with `EINTR` or another `errno`.
pub data Recv : Type 0 where
  got : ℕ → List ℕ → Recv
  closed interrupted failed : Recv

-- What `read_all` returns (`len`, 0 or -1), with the bytes in its buffer and the calls left over.
pub data Read : Type 0 where
  full : List ℕ → List Recv → Read
  ended broken waiting : Read

-- The bytes of one call stand before those of the rest.
unfoldable pub filled : List ℕ → Read → Read
filled bs (full cs rest) = full (bs ++ cs) rest
filled bs r = r

unfoldable pub read_all : ℕ → List Recv → Read
unfolding filled
read_all zero script = full [] script
read_all (suc left) [] = waiting
read_all (suc left) (got b bs ∷ script) =
    filled (b ∷ bs) (read_all (sub64 (suc left) (suc (length bs))) script)
read_all (suc left) (closed ∷ script) = ended
read_all (suc left) (interrupted ∷ script) = read_all (suc left) script
read_all (suc left) (failed ∷ script) = broken

-- What one `send` returns: how many bytes it took (0 included), or -1 with `EINTR` or another
-- `errno`.
pub data Send : Type 0 where
  took : ℕ → Send
  interrupted failed : Send

-- What `write_all` returns (`len` or -1), with the bytes that went out.
pub data Write : Type 0 where
  sent : List ℕ → List Send → Write
  broken : List ℕ → Write
  waiting : List ℕ → Write

unfoldable pub after : List ℕ → Write → Write
after bs (sent cs rest) = sent (bs ++ cs) rest
after bs (broken cs) = broken (bs ++ cs)
after bs (waiting cs) = waiting (bs ++ cs)

-- `p` points at the bytes still to be sent, and `left` is their number; a `send` takes at most
-- these.
unfoldable pub write_all : List ℕ → List Send → Write
unfolding after
write_all [] script = sent [] script
write_all (b ∷ bs) [] = waiting []
write_all (b ∷ bs) (took zero ∷ script) = broken []
write_all (b ∷ bs) (took (suc n) ∷ script) =
    after (take (suc n) (b ∷ bs)) (write_all (drop (suc n) (b ∷ bs)) script)
write_all (b ∷ bs) (Send.interrupted ∷ script) = write_all (b ∷ bs) script
write_all (b ∷ bs) (Send.failed ∷ script) = broken []

-- `PING_MAGIC` and `sizeof(ping_pkt_t)`, a packed struct.
abbrev pub ping_magic : ℕ
ping_magic = 1346981447

abbrev pub ping_size : ℕ
ping_size = 20

-- How the loop of `main` ends, with the bytes that went out; `idle` waits in a `recv`, `stalled` in a
-- `send`, and `out_of_fuel` is no end of the program's.
pub data Echo : Type 0 where
  server_closed recv_failed send_failed idle stalled out_of_fuel : List ℕ → Echo

unfoldable pub echoed : List ℕ → Echo → Echo
echoed bs (server_closed cs) = server_closed (bs ++ cs)
echoed bs (recv_failed cs) = recv_failed (bs ++ cs)
echoed bs (send_failed cs) = send_failed (bs ++ cs)
echoed bs (idle cs) = idle (bs ++ cs)
echoed bs (stalled cs) = stalled (bs ++ cs)
echoed bs (out_of_fuel cs) = out_of_fuel (bs ++ cs)

-- After a packet was answered, with what follows.
unfoldable pub answered : (List Send → Echo) → Write → Echo
unfolding echoed
answered next (sent out sends) = echoed out (next sends)
answered next (broken out) = send_failed out
answered next (waiting out) = stalled out

-- One turn of the loop after `read_all`. `magic` reads the first field of a packet in the byte
-- order of the machine.
unfoldable pub turn : (List ℕ → ℕ) → (List Recv → List Send → Echo) → Read → List Send → Echo
unfolding answered
turn magic next waiting sends = idle []
turn magic next ended sends = server_closed []
turn magic next broken sends = recv_failed []
turn magic next (full pkt rest) sends =
    if magic pkt == ping_magic then answered (next rest) (write_all pkt sends) else next rest sends

-- The loop of `main`.
unfoldable pub echo : (List ℕ → ℕ) → ℕ → List Recv → List Send → Echo
unfolding turn
echo magic zero recvs sends = out_of_fuel []
echo magic (suc fuel) recvs sends = turn magic (echo magic fuel) (read_all ping_size recvs) sends
