-- ===== src/Pop/Loop/Same.antt =====
-- The socket loops of bin/app_layer_rtt/tcp_ping_receiver_pop.c against those of
-- bin/app_layer_rtt/tcp_ping_receiver.c.
use starlink_tcp.Common.{
  ℕ, zero, suc, true, false, ◌≡◌, refl, ap, ◌∙◌, List, [], ◌∷◌, ◌==◌, Bool-cases, inl, inr, sub64,
  length, take, drop,
}
use starlink_tcp.Echo
use starlink_tcp.Echo.{ping_size, ping_magic}
use starlink_tcp.Pop.Loop.{
  Recv, got, closed, Read, full, ended, broken, waiting, filled, read_all, Send, took, Write, sent,
  after, write_all, Outcome, over, idle, out_of_fuel, echoed, answered, turn, serve,
}

-- A call that a stop interrupts counts as one that fails.
abbrev pub plain_recvs : List Recv → List Echo.Recv
plain_recvs [] = []
plain_recvs (got b bs ∷ script) = Echo.Recv.got b bs ∷ plain_recvs script
plain_recvs (closed ∷ script) = Echo.Recv.closed ∷ plain_recvs script
plain_recvs (Recv.interrupted true ∷ script) = Echo.Recv.failed ∷ plain_recvs script
plain_recvs (Recv.interrupted false ∷ script) = Echo.Recv.interrupted ∷ plain_recvs script
plain_recvs (Recv.failed ∷ script) = Echo.Recv.failed ∷ plain_recvs script

abbrev pub plain_sends : List Send → List Echo.Send
plain_sends [] = []
plain_sends (took n ∷ script) = Echo.Send.took n ∷ plain_sends script
plain_sends (Send.interrupted true ∷ script) = Echo.Send.failed ∷ plain_sends script
plain_sends (Send.interrupted false ∷ script) = Echo.Send.interrupted ∷ plain_sends script
plain_sends (Send.failed ∷ script) = Echo.Send.failed ∷ plain_sends script

abbrev pub plain_read : Read → Echo.Read
plain_read (full bs rest) = Echo.Read.full bs (plain_recvs rest)
plain_read ended = Echo.Read.ended
plain_read broken = Echo.Read.broken
plain_read waiting = Echo.Read.waiting

abbrev pub plain_write : Write → Echo.Write
plain_write (sent bs rest) = Echo.Write.sent bs (plain_sends rest)
plain_write (Write.broken bs) = Echo.Write.broken bs
plain_write (Write.waiting bs) = Echo.Write.waiting bs

-- The three ends of the plain loop are one here, and so are its two waits.
abbrev pub ended_as : Echo.Echo → Outcome
ended_as (Echo.server_closed bs) = over bs
ended_as (Echo.recv_failed bs) = over bs
ended_as (Echo.send_failed bs) = over bs
ended_as (Echo.Echo.idle bs) = idle bs
ended_as (Echo.stalled bs) = idle bs
ended_as (Echo.Echo.out_of_fuel bs) = out_of_fuel bs

plain_read-filled :
    (bs : List ℕ) (r : Read) → plain_read (filled bs r) ≡ Echo.filled bs (plain_read r)
unfolding filled Echo.filled
plain_read-filled bs (full cs rest) = refl
plain_read-filled bs ended = refl
plain_read-filled bs broken = refl
plain_read-filled bs waiting = refl

read_all_same :
    (script : List Recv) (len : ℕ)
    → plain_read (read_all len script) ≡ Echo.read_all len (plain_recvs script)
unfolding read_all Echo.read_all
read_all_same script zero = refl
read_all_same [] (suc left) = refl
read_all_same (got b bs ∷ script) (suc left) =
    plain_read-filled (b ∷ bs) _
    ∙ ap (Echo.filled (b ∷ bs)) (read_all_same script (sub64 (suc left) (suc (length bs))))
read_all_same (closed ∷ script) (suc left) = refl
read_all_same (Recv.interrupted true ∷ script) (suc left) = refl
read_all_same (Recv.interrupted false ∷ script) (suc left) = read_all_same script (suc left)
read_all_same (Recv.failed ∷ script) (suc left) = refl

plain_write-after :
    (bs : List ℕ) (w : Write) → plain_write (after bs w) ≡ Echo.after bs (plain_write w)
unfolding after Echo.after
plain_write-after bs (sent cs rest) = refl
plain_write-after bs (Write.broken cs) = refl
plain_write-after bs (Write.waiting cs) = refl

write_all_same :
    (script : List Send) (bs : List ℕ)
    → plain_write (write_all bs script) ≡ Echo.write_all bs (plain_sends script)
unfolding write_all Echo.write_all
write_all_same script [] = refl
write_all_same [] (b ∷ bs) = refl
write_all_same (took zero ∷ script) (b ∷ bs) = refl
write_all_same (took (suc n) ∷ script) (b ∷ bs) =
    plain_write-after (take (suc n) (b ∷ bs)) _
    ∙ ap (Echo.after (take (suc n) (b ∷ bs))) (write_all_same script (drop (suc n) (b ∷ bs)))
write_all_same (Send.interrupted true ∷ script) (b ∷ bs) = refl
write_all_same (Send.interrupted false ∷ script) (b ∷ bs) = write_all_same script (b ∷ bs)
write_all_same (Send.failed ∷ script) (b ∷ bs) = refl

echoed_same : (bs : List ℕ) (e : Echo.Echo) → echoed bs (ended_as e) ≡ ended_as (Echo.echoed bs e)
unfolding echoed Echo.echoed
echoed_same bs (Echo.server_closed cs) = refl
echoed_same bs (Echo.recv_failed cs) = refl
echoed_same bs (Echo.send_failed cs) = refl
echoed_same bs (Echo.Echo.idle cs) = refl
echoed_same bs (Echo.stalled cs) = refl
echoed_same bs (Echo.Echo.out_of_fuel cs) = refl

answered_same :
    (next : List Send → Outcome) (next' : List Echo.Send → Echo.Echo) (w : Write)
    → ((sends : List Send) → next sends ≡ ended_as (next' (plain_sends sends)))
    → answered next w ≡ ended_as (Echo.answered next' (plain_write w))
unfolding answered Echo.answered
answered_same next next' (sent out sends) h =
    ap (echoed out) (h sends) ∙ echoed_same out (next' (plain_sends sends))
answered_same next next' (Write.broken out) h = refl
answered_same next next' (Write.waiting out) h = refl

turn_same :
    (magic : List ℕ → ℕ) (next : List Recv → List Send → Outcome)
    (next' : List Echo.Recv → List Echo.Send → Echo.Echo) (r : Read) (sends : List Send)
    → ((recvs : List Recv) (sends' : List Send)
        → next recvs sends' ≡ ended_as (next' (plain_recvs recvs) (plain_sends sends')))
    → turn magic next r sends ≡ ended_as (Echo.turn magic next' (plain_read r) (plain_sends sends))
unfolding turn Echo.turn
turn_same magic next next' ended sends h = refl
turn_same magic next next' broken sends h = refl
turn_same magic next next' waiting sends h = refl
turn_same magic next next' (full pkt rest) sends h = elim (Bool-cases (magic pkt == ping_magic)) [
  | inl ping ↦ rw ping (
      answered_same (next rest) (next' (plain_recvs rest)) (write_all pkt sends) (h rest)
      ∙ ap (λ w. ended_as (Echo.answered (next' (plain_recvs rest)) w)) (write_all_same sends pkt))
  | inr other ↦ rw other (h rest sends)
]

-- Without a stop between two turns, this receiver does what the plain one does: on every script its
-- loop ends in the same way with the same bytes sent, a call that a stop interrupts counting as one
-- that fails.
pub serve_same :
    (magic : List ℕ → ℕ) (fuel : ℕ) (recvs : List Recv) (sends : List Send)
    → serve magic fuel [] recvs sends
      ≡ ended_as (Echo.echo magic fuel (plain_recvs recvs) (plain_sends sends))
unfolding serve Echo.echo
serve_same magic zero recvs sends = refl
serve_same magic (suc fuel) recvs sends =
    turn_same magic (serve magic fuel []) (Echo.echo magic fuel) (read_all ping_size recvs) sends
      (λ recvs' sends'. serve_same magic fuel recvs' sends')
    ∙ ap (λ r. ended_as (Echo.turn magic (Echo.echo magic fuel) r (plain_sends sends)))
        (read_all_same recvs ping_size)
