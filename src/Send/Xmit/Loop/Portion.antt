-- ===== src/Send/Xmit/Loop/Portion.antt =====
-- The part of the head that a turn of `tcp_write_xmit`, redhat_kernel/tcp_output.c, may send.
use starlink_tcp.Common.{
  ℕ, ◌+◌, ◌-◌, ◌*◌, ◌^◌, ◌≤◌, ◌<◌, ◌≡◌, ◌≢◌, refl, sym, ap, ◌∙◌, arith, List, ◌∷◌, ◌++◌, Bool,
  false, ◌||◌, ltb, leb, min, append_assoc, if-cases, sub32, add32, inl, inr, none, some,
  Option-cases,
}
use starlink_tcp.Send.Buffer.{Buff, payload, divided, counted}
use starlink_tcp.Send.Buffer.Whole.{IsSound, Splits, segments, IsCut, counted-IsCut}
use starlink_tcp.Send.Xmit.{Sk, Host, tso_fragment}
use starlink_tcp.Send.Xmit.Loop.{Turn, portioned}
use starlink_tcp.Send.Xmit.Loop.Steps.{
  payloads, has_fin, weight, max_window, Held, Ready, Good, held-Moves, passed-Good,
}
use native.Mathlib.Nat.{div-lt_iff_lt-mul, mul-suc, mul_comm}

-- Bytes that `k` segments hold take no more than `k`.
pub segments-le : (mss_now n k : ℕ) → 0 < mss_now → 0 < k → n ≤ mss_now * k → segments mss_now n ≤ k
segments-le mss_now n k p q h =
    if-cases (λ (m : ℕ). m ≤ k) (leb n mss_now) (λ _. q)
      (λ _.
        let d = div-lt_iff_lt-mul {k = mss_now} {x = n + mss_now - 1} {y = k + 1} p in
        omega (arith, d.1 (omega (arith, mul_comm (k + 1) mss_now, mul-suc mss_now k))))

-- The parts have no FIN where the whole has none.
fin-parts : (a b c r : Bool) → a ≡ false → b ≡ c → (c || r) ≡ false → (a || (b || r)) ≡ false
fin-parts a b c r x y e = ground arith

zero_end : (one : Buff) → IsSound one → one.fin ≡ false → one.end_seq ≢ one.seq → one.pages.len ≢ 0
zero_end one s f n z = n (s.ends ∙ simp (f, z) (omega (arith, s.word)))

tso_fragment-none :
    (h : Host) (limit mss_now : ℕ) (sk : Sk) (skb : Buff)
    → h.tcp_stream_alloc_skb sk ≡ none
    → tso_fragment h limit mss_now sk skb ≡ none
unfolding tso_fragment
tso_fragment-none h limit mss_now sk skb e = rw (e, tso_fragment) refl

tso_fragment-some :
    (h : Host) (limit mss_now : ℕ) (sk : Sk) (skb fresh : Buff)
    → h.tcp_stream_alloc_skb sk ≡ some fresh
    → tso_fragment h limit mss_now sk skb
      ≡ some (
        record sk { wmem_queued = add32 sk.wmem_queued fresh.truesize },
        counted mss_now (divided h.splitter limit skb fresh),
      )
unfolding tso_fragment
tso_fragment-some h limit mss_now sk skb fresh e = rw (e, tso_fragment) refl

-- What lets `limit` bytes of the head go: whole segments within the quota, the head's own segments
-- counted, the peer's window, and room in flight.
pub record Allowed (P : Type 0) (bound mss_now limit quota : ℕ) (sk : Sk) (skb : Buff)
    : Type 0 where
  pub some_mss : 0 < mss_now
  pub some_quota : 0 < quota
  pub within : limit ≤ mss_now * quota
  pub segs : skb.pcount ≤ segments mss_now skb.pages.len
  pub seen :
      (min limit skb.pages.len ≤ sub32 sk.tp.wnd_end skb.seq)
      × (sub32 sk.tp.wnd_end skb.seq < 2 ^ 32 - max_window)
  pub space : P → sk.tp.in_flight + quota ≤ bound

module _ (P : Type 0) (bound mss_now limit quota : ℕ) (sk : Sk) where
  -- The head fits as it is.
  whole-Ready :
      (cur : Sk) (skb : Buff) (rest : List Buff)
      → Held P bound sk cur skb rest
      → Allowed P bound mss_now limit quota sk skb
      → weight (skb ∷ rest) ≤ weight sk.write_queue
      → skb.pages.len ≤ limit
      → Ready P bound sk cur skb rest
  whole-Ready cur skb rest r a w l =
      let fits =
        segments-le mss_now skb.pages.len quota a.some_mss a.some_quota (omega (arith, a.within)) in
      let seen = a.seen.0 in
      let segs = a.segs in
      record {
        held = r;
        reach = (omega arith, a.seen.1);
        room = λ e. omega (arith, a.space e);
        light = λ _. omega arith;
      }

  -- The head is cut.
  cut-Ready :
      (cur grown : Sk) (skb one two : Buff) (rest : List Buff)
      → Held P bound sk cur skb rest
      → Allowed P bound mss_now limit quota sk skb
      → weight (skb ∷ rest) ≤ weight sk.write_queue
      → limit < skb.pages.len
      → IsCut mss_now limit skb one two
      → grown.tp ≡ cur.tp
      → grown.wire ≡ cur.wire
      → grown.repair ≡ cur.repair
      → Ready P bound sk grown one (two ∷ rest)
  cut-Ready cur grown skb one two rest r a w l c x y z =
      let fits = segments-le mss_now limit quota a.some_mss a.some_quota a.within in
      let seen = a.seen.0 in
      let n = c.one-len in
      record {
        held = record {
          tp = x ∙ r.tp;
          wire = y ∙ r.wire;
          running = z ∙ r.running;
          begins = c.start_seq ∙ r.begins;
          sound = c.one-IsSound;
          counted = c.one-IsCounted;
          chain = (c.meets, c.two-IsSound, c.two-IsCounted, rw c.end_same r.chain);
          bytes =
              sym (append_assoc (payload one) (payload two) (payloads rest))
              ∙ ap (λ t. t ++ payloads rest) c.joined
              ∙ r.bytes;
          plain = λ e.
              fin-parts one.fin two.fin skb.fin (has_fin rest) c.one-plain.0 c.two-marks.0
                (r.plain e);
          low = r.low;
        };
        reach = rw (c.start_seq, n) (omega arith, a.seen.1);
        room = λ e. rw c.one-pcount (omega (arith, a.space e));
        light = λ d.
            let some_bytes = zero_end one c.one-IsSound c.one-plain.0 d in
            omega (arith, c.two-len, n, some_bytes);
      }

  pub portioned-Good :
      (h : Host) (cur : Sk) (skb : Buff) (rest : List Buff)
      → Splits h.splitter
      → Held P bound sk cur skb rest
      → Allowed P bound mss_now limit quota sk skb
      → weight (skb ∷ rest) ≤ weight sk.write_queue
      → Good P bound sk (portioned h mss_now limit cur skb rest)
  unfolding portioned
  portioned-Good h cur skb rest sp r a w =
      if-cases (λ (t : Turn). Good P bound sk t) (ltb limit skb.pages.len)
        (λ e. elim (Option-cases (h.tcp_stream_alloc_skb cur)) [
          | inl n ↦
              rw (tso_fragment-none h limit mss_now cur skb n)
                (held-Moves P bound sk cur skb rest r)
          | inr (fresh, n) ↦ rw (tso_fragment-some h limit mss_now cur skb fresh n) (
              let p = counted mss_now (divided h.splitter limit skb fresh) in
              passed-Good P bound sk h mss_now _ p.skb (p.buff ∷ rest) (
                cut-Ready cur _ skb p.skb p.buff rest r a w (ground arith)
                  (counted-IsCut h.splitter mss_now limit skb fresh sp r.sound (ground arith)) refl
                  refl refl))
        ])
        (λ e.
          passed-Good P bound sk h mss_now cur skb rest
            (whole-Ready cur skb rest r a w (ground arith)))
