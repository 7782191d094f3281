-- ===== src/Pop/Loop.antt =====
-- The socket loops of bin/app_layer_rtt/tcp_ping_receiver_pop.c, which a signal can stop.
pub mod Same
use starlink_tcp.Common.{
  ℕ, zero, suc, Bool, true, false, List, [], ◌∷◌, ◌++◌, ◌==◌, if◌then◌else◌, sub64, length, take,
  drop,
}
use starlink_tcp.Echo.{ping_size, ping_magic}

-- What one `recv` returns; with `EINTR` goes what `stop_requested` then is.
pub data Recv : Type 0 where
  got : ℕ → List ℕ → Recv
  interrupted : Bool → Recv
  closed failed : Recv

pub data Read : Type 0 where
  full : List ℕ → List Recv → Read
  ended broken waiting : Read

pub filled : List ℕ → Read → Read
filled bs (full cs rest) = full (bs ++ cs) rest
filled bs r = r

pub read_all : ℕ → List Recv → Read
unfolding filled
read_all zero script = full [] script
read_all (suc left) [] = waiting
read_all (suc left) (got b bs ∷ script) =
    filled (b ∷ bs) (read_all (sub64 (suc left) (suc (length bs))) script)
read_all (suc left) (closed ∷ script) = ended
read_all (suc left) (interrupted true ∷ script) = broken
read_all (suc left) (interrupted false ∷ script) = read_all (suc left) script
read_all (suc left) (failed ∷ script) = broken

pub data Send : Type 0 where
  took : ℕ → Send
  interrupted : Bool → Send
  failed : Send

pub data Write : Type 0 where
  sent : List ℕ → List Send → Write
  broken waiting : List ℕ → Write

pub after : List ℕ → Write → Write
after bs (sent cs rest) = sent (bs ++ cs) rest
after bs (broken cs) = broken (bs ++ cs)
after bs (waiting cs) = waiting (bs ++ cs)

pub write_all : List ℕ → List Send → Write
unfolding after
write_all [] script = sent [] script
write_all (b ∷ bs) [] = waiting []
write_all (b ∷ bs) (took zero ∷ script) = broken []
write_all (b ∷ bs) (took (suc n) ∷ script) =
    after (take (suc n) (b ∷ bs)) (write_all (drop (suc n) (b ∷ bs)) script)
write_all (b ∷ bs) (Send.interrupted true ∷ script) = broken []
write_all (b ∷ bs) (Send.interrupted false ∷ script) = write_all (b ∷ bs) script
write_all (b ∷ bs) (Send.failed ∷ script) = broken []

-- How the loop of `main` ends, with the bytes that went out: `over` by a stop, the end of the stream
-- or an error; `idle` waits for a call, and `out_of_fuel` is no end of the program's.
pub data Outcome : Type 0 where
  over idle out_of_fuel : List ℕ → Outcome

pub echoed : List ℕ → Outcome → Outcome
echoed bs (over cs) = over (bs ++ cs)
echoed bs (idle cs) = idle (bs ++ cs)
echoed bs (out_of_fuel cs) = out_of_fuel (bs ++ cs)

pub answered : (List Send → Outcome) → Write → Outcome
unfolding echoed
answered next (sent out sends) = echoed out (next sends)
answered next (broken out) = over out
answered next (waiting out) = idle out

pub turn : (List ℕ → ℕ) → (List Recv → List Send → Outcome) → Read → List Send → Outcome
unfolding answered
turn magic next waiting sends = idle []
turn magic next ended sends = over []
turn magic next broken sends = over []
turn magic next (full pkt rest) sends =
    if magic pkt == ping_magic then answered (next rest) (write_all pkt sends) else next rest sends

-- The loop of `main`. `stops` is what `stop_requested` is at each turn, and false after that.
pub serve : (List ℕ → ℕ) → ℕ → List Bool → List Recv → List Send → Outcome
unfolding turn
serve magic zero stops recvs sends = out_of_fuel []
serve magic (suc fuel) [] recvs sends =
    turn magic (serve magic fuel []) (read_all ping_size recvs) sends
serve magic (suc fuel) (true ∷ stops) recvs sends = over []
serve magic (suc fuel) (false ∷ stops) recvs sends =
    turn magic (serve magic fuel stops) (read_all ping_size recvs) sends
