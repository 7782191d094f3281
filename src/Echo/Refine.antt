-- ===== src/Echo/Refine.antt =====
-- What the loop of bin/app_layer_rtt/tcp_ping_receiver.c sends back against a description by the
-- bytes of the stream alone: the packets of 20 bytes, and of these the pings.
use starlink_tcp.Common.{
  ℕ, zero, suc, ◌≤◌, ◌<◌, ◌≡◌, arith, length, take, drop, take-append, drop-append, append_assoc,
  refl, ap, sym, subst, ◌∙◌, List, [], ◌∷◌, ◌++◌, ◌==◌, ltb, if◌then◌else◌, Bool-cases, inl, inr,
}
use starlink_tcp.Echo.{
  Recv, Read, full, ended, broken, waiting, read_all, Send, Write, sent, write_all, Echo,
  out_of_fuel, server_closed, recv_failed, send_failed, idle, stalled, echoed, answered, turn, echo,
  ping_size, ping_magic,
}
use starlink_tcp.Echo.Exact.{Fits, arrived, IsExact, read_all-IsExact, IsPrefix, write_all-IsPrefix}

-- The pings among the packets of a stream, `fuel` packets at most.
pub pings : (List ℕ → ℕ) → ℕ → List ℕ → List ℕ
pings magic zero bytes = []
pings magic (suc fuel) bytes =
    let rest = pings magic fuel (drop ping_size bytes) in
    let pkt = take ping_size bytes in
    if ltb (length bytes) ping_size
    then []
    else if magic pkt == ping_magic
    then pkt ++ rest
    else rest

-- What holds of the calls that a reading leaves over.
abbrev pub After : (List Recv → Type 0) → Read → Type 0
After P (full bs rest) = P rest
After P _ = Unit

-- `recv` returns at most what it is asked for, in the whole loop.
abbrev pub AllFit : ℕ → List Recv → Type 0
AllFit zero recvs = Unit
AllFit (suc fuel) recvs = Fits ping_size recvs × After (AllFit fuel) (read_all ping_size recvs)

length-le : (xs ys : List ℕ) → length xs ≤ length (xs ++ ys)
length-le [] ys = omega arith
length-le (x ∷ xs) ys = omega (arith, length-le xs ys)

pings-append :
    (magic : List ℕ → ℕ) (fuel : ℕ) (pkt bytes : List ℕ)
    → length pkt ≡ ping_size
    → pings magic (suc fuel) (pkt ++ bytes)
      ≡ (if magic pkt == ping_magic then pkt ++ pings magic fuel bytes else pings magic fuel bytes)
unfolding pings
pings-append magic fuel pkt bytes e =
    let front : take ping_size (pkt ++ bytes) ≡ pkt =
      subst (λ n. take n (pkt ++ bytes) ≡ pkt) e (take-append pkt bytes) in
    let back : drop ping_size (pkt ++ bytes) ≡ bytes =
      subst (λ n. drop n (pkt ++ bytes) ≡ bytes) e (drop-append pkt bytes) in
    rw (front, back) (ground (arith, length-le pkt bytes))

-- `xs` begins `ys`.
abbrev pub Begins : List ℕ → List ℕ → Type 0
Begins xs ys = (tail : List ℕ) × (xs ++ tail ≡ ys)

-- What may have gone out where `all` should: all of it, or the beginning if a `send` failed or waits.
abbrev pub Answers : List ℕ → Echo → Type 0
Answers all (server_closed bs) = bs ≡ all
Answers all (recv_failed bs) = bs ≡ all
Answers all (idle bs) = bs ≡ all
Answers all (out_of_fuel bs) = bs ≡ all
Answers all (send_failed bs) = Begins bs all
Answers all (stalled bs) = Begins bs all

-- The rest of a packet and what follows it are still to come.
more_to_come : (out tail pkt after : List ℕ) → out ++ tail ≡ pkt → Begins out (pkt ++ after)
more_to_come out tail pkt after e =
    (tail ++ after, sym (append_assoc out tail after) ∙ ap (λ t. t ++ after) e)

Begins-append : (bs cs all : List ℕ) → Begins cs all → Begins (bs ++ cs) (bs ++ all)
Begins-append bs cs all (tail, e) = (tail, append_assoc bs cs tail ∙ ap (λ t. bs ++ t) e)

Answers-echoed : (bs all : List ℕ) (e : Echo) → Answers all e → Answers (bs ++ all) (echoed bs e)
unfolding echoed
Answers-echoed bs all (server_closed cs) h = ap (λ t. bs ++ t) h
Answers-echoed bs all (recv_failed cs) h = ap (λ t. bs ++ t) h
Answers-echoed bs all (idle cs) h = ap (λ t. bs ++ t) h
Answers-echoed bs all (out_of_fuel cs) h = ap (λ t. bs ++ t) h
Answers-echoed bs all (send_failed cs) h = Begins-append bs cs all h
Answers-echoed bs all (stalled cs) h = Begins-append bs cs all h

answered-Answers :
    (next : List Send → Echo) (pkt after : List ℕ) (w : Write)
    → IsPrefix pkt w
    → ((sends : List Send) → Answers after (next sends))
    → Answers (pkt ++ after) (answered next w)
unfolding answered
answered-Answers next pkt after (sent out sends) e h =
    subst (λ t. Answers (t ++ after) (echoed out (next sends))) e
      (Answers-echoed out after (next sends) (h sends))
answered-Answers next pkt after (Write.broken out) (tail, e) h = more_to_come out tail pkt after e
answered-Answers next pkt after (Write.waiting out) (tail, e) h = more_to_come out tail pkt after e

-- Fewer bytes than a packet hold no ping.
pings_short :
    (magic : List ℕ → ℕ) (fuel : ℕ) (bytes : List ℕ)
    → length bytes < ping_size
    → [] ≡ pings magic (suc fuel) bytes
unfolding pings
pings_short magic fuel bytes h = ground arith

turn-Answers :
    (magic : List ℕ → ℕ) (next : List Recv → List Send → Echo) (fuel : ℕ) (recvs : List Recv)
    (r : Read) (sends : List Send)
    → IsExact ping_size recvs r
    → After (AllFit fuel) r
    → ((rest : List Recv) (sends' : List Send)
        → AllFit fuel rest
        → Answers (pings magic fuel (arrived rest)) (next rest sends'))
    → Answers (pings magic (suc fuel) (arrived recvs)) (turn magic next r sends)
unfolding turn
turn-Answers magic next fuel recvs ended sends x f h = pings_short magic fuel (arrived recvs) x
turn-Answers magic next fuel recvs broken sends x f h = pings_short magic fuel (arrived recvs) x
turn-Answers magic next fuel recvs waiting sends x f h = pings_short magic fuel (arrived recvs) x
turn-Answers magic next fuel recvs (full pkt rest) sends x f h =
    rw (x.1, pings-append magic fuel pkt (arrived rest) x.0)
      (elim (Bool-cases (magic pkt == ping_magic)) [
        | inl ping ↦ rw ping (
            answered-Answers (next rest) pkt (pings magic fuel (arrived rest)) (write_all pkt sends)
              (write_all-IsPrefix pkt sends) (λ s. h rest s f))
        | inr other ↦ rw other (h rest sends f)
      ])

-- For calls of `recv` that return no more than they are asked for: whatever the sizes of the single
-- calls and their interruptions, if the loop ends since the server closed the stream, since a `recv`
-- failed or waits, or after its number of packets, then it has sent back exactly the pings among
-- those packets of 20 bytes that arrived before (those with the magic number), in order, with no
-- byte lost, changed or sent twice. If a `send` failed or waits, it has sent a beginning of them.
pub echo-Answers :
    (magic : List ℕ → ℕ) (fuel : ℕ) (recvs : List Recv) (sends : List Send)
    → AllFit fuel recvs
    → Answers (pings magic fuel (arrived recvs)) (echo magic fuel recvs sends)
unfolding echo pings
echo-Answers magic zero recvs sends f = refl
echo-Answers magic (suc fuel) recvs sends f =
    turn-Answers magic (echo magic fuel) fuel recvs (read_all ping_size recvs) sends
      (read_all-IsExact ping_size recvs (omega arith) f.0) f.1
      (λ rest sends' g. echo-Answers magic fuel rest sends' g)
