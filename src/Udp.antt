-- ===== src/Udp.antt =====
-- The UDP echo receiver, bin/app_layer_rtt/udp_ping_receiver.c.
use starlink_tcp.Common.{
  ℕ, Bool, true, false, not, List, [], ◌∷◌, ◌==◌, if◌then◌else◌, length, take,
}
use starlink_tcp.Echo.{ping_size, ping_magic}

-- What one `recvfrom` finds: an error, or a datagram and its sender. Of a datagram the call returns
-- what fits the buffer.
pub data Arrival : Type 0 where
  failed : Arrival
  datagram : List ℕ → ℕ → Arrival

-- One turn of the loop: what `sendto` is given, a packet and an address.
answer : (List ℕ → ℕ) → Arrival → List (List ℕ × ℕ)
answer magic failed = []
answer magic (datagram bytes from) =
    let pkt = take ping_size bytes in
    if not (length pkt == ping_size)
    then []
    else if not (magic pkt == ping_magic)
    then []
    else (pkt, from) ∷ []

-- The loop, over all that arrives. It has no end of its own.
pub serve : (List ℕ → ℕ) → List Arrival → List (List ℕ × ℕ)
unfolding answer
serve magic [] = []
serve magic (a ∷ arrivals) =
    let rest = serve magic arrivals in elim (answer magic a) [ [] ↦ rest | r ∷ _ ↦ r ∷ rest ]

-- How the calls before the loop turn out.
pub record Setup : Type 0 where
  pub argc : ℕ
  pub socket_ok : Bool
  pub bind_ok : Bool
  pub address_ok : Bool
  pub register_ok : Bool

-- `main`: `returned` with an exit code and whether the socket was closed, or in the loop with what
-- it sends.
pub data Run : Type 0 where
  returned : ℕ → (opened closed : Bool) → Run
  looping : List (List ℕ × ℕ) → Run

pub main : (List ℕ → ℕ) → Setup → List Arrival → Run
main magic s arrivals =
    if not (s.argc == 4)
    then returned 1 false false
    else if not s.socket_ok
    then returned 1 false false
    else if not s.bind_ok
    then returned 1 true true
    else if not s.address_ok
    then returned 1 true true
    else if not s.register_ok
    then returned 1 true true
    else looping (serve magic arrivals)
