-- ===== src/Send/Xmit/Loop/Runs.antt =====
-- The loop of `tcp_write_xmit`, redhat_kernel/tcp_output.c, ends, and its turns add up.
use starlink_tcp.Common.{
  ℕ, zero, suc, ◌+◌, ◌≤◌, ◌<◌, ◌≡◌, refl, sym, ap, subst, ◌∙◌, arith, List, [], ◌∷◌, ◌++◌, false,
  ◌==◌, append_assoc, append-nil, if-cases,
}
use starlink_tcp.Send.Buffer.{Buff, payload}
use starlink_tcp.Send.Xmit.{Sk, Host}
use starlink_tcp.Send.Xmit.Loop.{
  Turn, stop, went, Call, Loop, ended, follow, round, xmit_loop, turn,
}
use starlink_tcp.Send.Xmit.Loop.Steps.{payloads, IsChain, has_fin, Within, weight, Moves, Good}
use starlink_tcp.Send.Xmit.Loop.Heads.{IsCall}
use starlink_tcp.Send.Xmit.Loop.Turns.{turn-Good}

-- What the loop may end with.
abbrev pub Ran : Type 0 → ℕ → Sk → Loop → Type 0
Ran P bound sk (ended next a b n) = (out : List Buff) × Moves P bound sk next out
Ran P bound sk Loop.bug = ⊥
Ran P bound sk Loop.out_of_fuel = ⊥

-- What holds before each turn.
pub record Begins (P : Type 0) (bound : ℕ) (sk : Sk) : Type 0 where
  pub chain : IsChain sk.tp.snd_nxt sk.write_queue
  pub running : sk.repair ≡ false
  pub cwnd : sk.tp.snd_cwnd ≤ bound
  pub low : P → sk.tp.in_flight ≤ bound
  pub plain : P → has_fin sk.write_queue ≡ false

module _ (P : Type 0) (bound : ℕ) where
  Moves-Begins :
      (sk next : Sk) (out : List Buff)
      → Begins P bound sk
      → Moves P bound sk next out
      → Begins P bound next
  Moves-Begins sk next out b m = record {
    chain = m.chain;
    running = m.running ∙ b.running;
    cwnd = rw m.cwnd b.cwnd;
    low = m.flight;
    plain = m.plain;
  }

  nothing-Moves : (sk : Sk) → Begins P bound sk → Moves P bound sk sk []
  nothing-Moves sk b = record {
    wire = sym (append-nil sk.wire);
    bytes = refl;
    chain = b.chain;
    reach = tt;
    plain = b.plain;
    flight = b.low;
    wnd = refl;
    cwnd = refl;
    running = refl;
  }

  one-Moves :
      (sk mid next : Sk) (one : Buff) (out : List Buff)
      → Moves P bound sk mid (one ∷ [])
      → Moves P bound mid next out
      → Moves P bound sk next (one ∷ out)
  one-Moves sk mid next one out m n = record {
    wire = n.wire ∙ ap (λ w. w ++ out) m.wire ∙ append_assoc sk.wire (one ∷ []) out;
    bytes =
        append_assoc (payload one) (payloads out) (payloads next.write_queue)
        ∙ ap (λ t. payload one ++ t) n.bytes
        ∙ ap (λ t. t ++ payloads mid.write_queue) (sym (append-nil (payload one)))
        ∙ m.bytes;
    chain = n.chain;
    reach = (m.reach.0, subst (λ w. Within w out) m.wnd n.reach);
    plain = n.plain;
    flight = n.flight;
    wnd = n.wnd ∙ m.wnd;
    cwnd = n.cwnd ∙ m.cwnd;
    running = n.running ∙ m.running;
  }

  Ran-after :
      (sk mid : Sk) (one : Buff) (l : Loop)
      → Moves P bound sk mid (one ∷ [])
      → Ran P bound mid l
      → Ran P bound sk l
  Ran-after sk mid one (ended next x y n) m (out, r) =
      (one ∷ out, one-Moves sk mid next one out m r)
  Ran-after sk mid one Loop.bug m x = elim x [ ]
  Ran-after sk mid one Loop.out_of_fuel m x = elim x [ ]

  follow-Ran :
      (c : Call) (sk : Sk) (sent_pkts : ℕ) (next : Sk → ℕ → Loop) (t : Turn)
      → Begins P bound sk
      → ((mid : Sk) (n : ℕ)
          → Begins P bound mid
          → weight mid.write_queue < weight sk.write_queue
          → Ran P bound mid (next mid n))
      → Good P bound sk t
      → Ran P bound sk (follow c sent_pkts next t)
  unfolding follow
  follow-Ran c sk sent_pkts next (stop to x y) b ih g = ([], g)
  follow-Ran c sk sent_pkts next (went to n) b ih (one, m, w) =
      if-cases (Ran P bound sk) (c.push_one == 0)
        (λ _.
          Ran-after sk to one (next to (sent_pkts + n)) m
            (ih to (sent_pkts + n) (Moves-Begins sk to (one ∷ []) b m) w))
        (λ _. (one ∷ [], m))
  follow-Ran c sk sent_pkts next Turn.bug b ih g = elim g [ ]

  round-Ran :
      (h : Host) (c : Call) (sk : Sk) (sent_pkts : ℕ) (next : Sk → ℕ → Loop) (q : List Buff)
      → IsCall h c
      → sk.write_queue ≡ q
      → Begins P bound sk
      → ((mid : Sk) (n : ℕ)
          → Begins P bound mid
          → weight mid.write_queue < weight sk.write_queue
          → Ran P bound mid (next mid n))
      → Ran P bound sk (round h c sk sent_pkts next q)
  unfolding round
  round-Ran h c sk sent_pkts next [] ok e b ih = ([], nothing-Moves sk b)
  round-Ran h c sk sent_pkts next (skb ∷ rest) ok e b ih =
      follow-Ran c sk sent_pkts next (turn h c sk skb rest) b ih (
        turn-Good P bound sk h c ok skb rest e (subst (λ p. IsChain sk.tp.snd_nxt p) e b.chain)
          b.running b.cwnd b.low (λ x. sym (ap has_fin e) ∙ b.plain x))

  -- Each turn that sends makes the queue lighter, so that its weight bounds the turns.
  pub xmit_loop-Ran :
      (h : Host) (c : Call) (fuel : ℕ) (sk : Sk) (sent_pkts : ℕ)
      → IsCall h c
      → Begins P bound sk
      → weight sk.write_queue < fuel
      → Ran P bound sk (xmit_loop h c fuel sk sent_pkts)
  unfolding xmit_loop
  xmit_loop-Ran h c zero sk sent_pkts ok b w = elim w [ ]
  xmit_loop-Ran h c (suc fuel) sk sent_pkts ok b w =
      round-Ran h c sk sent_pkts (xmit_loop h c fuel) sk.write_queue ok refl b
        (λ mid n bm l. xmit_loop-Ran h c fuel mid n ok bm (omega arith))
