-- ===== src/Send/Fragment/Outcome.antt =====
-- What `tcp_fragment` of redhat_kernel/tcp_output.c leaves of a buffer, of its
-- queue and of the counters.
use mathlib.Core.List.{Perm, perm_middle}
use mathlib.Core.List.Perm
use starlink_tcp.Common.{
  ℕ, ◌+◌, ◌≤◌, ◌<◌, ◌^◌, ◌≡◌, refl, sym, ap, subst, ◌∙◌, arith, List, [], ◌∷◌, ◌++◌, true, false,
  not, ◌||◌, none, some, ltb, ◌==◌, Option-cases, inl, inr, ◌⊎◌, u32, add32, if-cases,
}
use starlink_tcp.Common.Int.{pos, ◌-ℤ◌, u32_of_int}
use starlink_tcp.Send.Buffer.{Buff, Pair, Splitter}
use starlink_tcp.Send.Buffer.Whole.{
  IsSound, IsCharged, Splits, IsCut, counted-IsCut, counted-truesizes,
}
use starlink_tcp.Send.Fragment.{
  Counters, sub_int, tcp_adjust_pcount, Queue, write, rtx, Around, Memory, marked, Error, einval,
  enomem, Done, Fragmented, ok, err, too_big, tcp_insert_write_queue_after, recounted, cut,
  tcp_fragment,
}

-- A new buffer is small enough for the sizes to add up.
pub record IsFresh (m : Memory) (skb : Buff) : Type 0 where
  pub sizes :
      (fresh : Buff) → m.tcp_stream_alloc_skb ≡ some fresh → skb.truesize + fresh.truesize < 2 ^ 32

-- The tree keeps the buffers that it has and takes the new one.
pub record Keeps (m : Memory) : Type 0 where
  pub keeps : (b : Buff) (q : List Buff) → Perm (m.tcp_rbtree_insert b q) (b ∷ q)

-- The queue with the two parts in the place of the old buffer: the write queue in this order, the
-- tree of sent buffers as the same buffers.
abbrev pub IsQueued : Queue → Around → Buff → Buff → List Buff → Type 0
IsQueued write at one two q = q ≡ at.earlier ++ one ∷ two ∷ at.later
IsQueued rtx at one two q = Perm q (at.earlier ++ one ∷ two ∷ at.later)

tcp_insert_write_queue_after-IsQueued :
    (m : Memory) (q : Queue) (at : Around) (one two : Buff)
    → Keeps m
    → IsQueued q at one two (tcp_insert_write_queue_after m q at one two)
unfolding tcp_insert_write_queue_after
tcp_insert_write_queue_after-IsQueued m write at one two k = refl
tcp_insert_write_queue_after-IsQueued m rtx at one two k =
    Perm.trans (k.keeps two (at.earlier ++ one ∷ at.later)) (
      Perm.trans (Perm.symm (perm_middle at.earlier (one ∷ at.later)))
        (Perm.append_left at.earlier (Perm.symm (perm_middle (one ∷ []) at.later))))

-- What each result of a split after `len` bytes promises.
abbrev pub IsSplit : Memory → Queue → ℕ → ℕ → Around → Buff → Counters → Fragmented → Type 0
IsSplit m q len mss_now at skb c (err einval) = skb.pages.len < len
IsSplit m q len mss_now at skb c (err enomem) =
    (len ≤ skb.pages.len)
    × (((too_big m q at c || not (m.unclone skb)) ≡ true) ⊎ (m.tcp_stream_alloc_skb ≡ none))
IsSplit m q len mss_now at skb c (ok d) =
    (grown : ℕ) × IsCut mss_now len skb d.pair.skb d.pair.buff
    × (d.pair.skb.truesize + d.pair.buff.truesize ≡ skb.truesize + grown)
    × (d.counters.wmem_queued ≡ add32 c.wmem_queued grown)
    × IsQueued q at d.pair.skb d.pair.buff d.queue

recounted-wmem :
    (s : Splitter) (n : ℕ) (p : Pair) (c : Counters)
    → (recounted s n p c).wmem_queued ≡ c.wmem_queued
unfolding recounted tcp_adjust_pcount
recounted-wmem s n p c =
    if-cases (λ (r : Counters). r.wmem_queued ≡ c.wmem_queued)
      (s.order.before c.snd_nxt p.buff.end_seq
        || u32_of_int (pos n -ℤ pos p.skb.pcount -ℤ pos p.buff.pcount) == 0)
      (λ _. refl) (λ _. refl)

-- `tcp_fragment` refuses a length past the end with -EINVAL, and has -ENOMEM only for the limit on
-- queued memory, a shared buffer that cannot be copied, or no new buffer. Otherwise the two parts
-- together are the old buffer in bytes, sequence numbers, flags and sizes, each is sound and counts
-- its own segments; and the write queue has the two, the second right after the first, in the place
-- of the old one between the others, while the tree of sent buffers has these two and the others.
-- The old buffer is sound, and the tree keeps what it has and takes what is put in.
pub tcp_fragment-IsSplit :
    (m : Memory) (q : Queue) (len mss_now : ℕ) (at : Around) (skb : Buff) (c : Counters)
    → Splits m.splitter
    → IsSound skb
    → IsCharged skb
    → IsFresh m skb
    → Keeps m
    → IsSplit m q len mss_now at skb c (tcp_fragment m q len mss_now at skb c)
unfolding tcp_fragment cut
tcp_fragment-IsSplit m q len mss_now at skb c sp sound charged fr keeps =
    let P : Fragmented → Type 0 = IsSplit m q len mss_now at skb c in
    if-cases P (ltb skb.pages.len len) (λ e. ground arith)
      (λ e.
        if-cases P (too_big m q at c || not (m.unclone skb)) (λ b. (ground arith, inl b))
          (λ b. elim (Option-cases m.tcp_stream_alloc_skb) [
            | inl n ↦ simp n (ground arith, inr refl)
            | inr (fresh, n) ↦ simp n (
              fresh.truesize,
              counted-IsCut m.splitter mss_now len skb (marked skb fresh) sp sound (ground arith),
              counted-truesizes m.splitter mss_now len skb (marked skb fresh) charged (ground arith)
                  (fr.sizes fresh n),
              recounted-wmem m.splitter skb.pcount _ _,
              tcp_insert_write_queue_after-IsQueued m q at _ _ keeps,
            )
          ]))

-- The segments of a queue.
abbrev pub total : List Buff → ℕ
total [] = 0
total (b ∷ q) = b.pcount + total q

total-append : (p q : List Buff) → total (p ++ q) ≡ total p + total q
total-append [] q = omega arith
total-append (b ∷ p) q = omega (arith, total-append p q)

-- The tree keeps the buffers it has and takes the new one, wherever it stands.
pub record Inserts (m : Memory) : Type 0 where
  pub counts : (b : Buff) (q : List Buff) → total (m.tcp_rbtree_insert b q) ≡ b.pcount + total q

total-insert :
    (m : Memory) (q : Queue) (at : Around) (one two : Buff)
    → Inserts m
    → total (tcp_insert_write_queue_after m q at one two)
      ≡ total at.earlier + (one.pcount + (two.pcount + total at.later))
unfolding tcp_insert_write_queue_after
total-insert m write at one two ins = total-append at.earlier (one ∷ two ∷ at.later)
total-insert m rtx at one two ins =
    ins.counts two (at.earlier ++ one ∷ at.later)
    ∙ omega (arith, total-append at.earlier (one ∷ at.later))

diff-word :
    (packets a b k e l : ℕ)
    → packets ≡ u32 (e + (k + l))
    → k < 2 ^ 31
    → a < 2 ^ 31
    → b < 2 ^ 30
    → sub_int packets (pos k -ℤ pos a -ℤ pos b) ≡ u32 (e + (a + (b + l)))
diff-word packets a b k e l h x y z = ground arith

recounted-packets :
    (s : Splitter) (n : ℕ) (p : Pair) (c : Counters)
    → s.order.before c.snd_nxt p.buff.end_seq ≡ false
    → c.packets_out < 2 ^ 32
    → (recounted s n p c).packets_out
      ≡ sub_int c.packets_out (pos n -ℤ pos p.skb.pcount -ℤ pos p.buff.pcount)
unfolding recounted tcp_adjust_pcount
recounted-packets s n p c sent h = simp sent (
    if-cases
      (λ (r : Counters).
        r.packets_out ≡ sub_int c.packets_out (pos n -ℤ pos p.skb.pcount -ℤ pos p.buff.pcount))
      (u32_of_int (pos n -ℤ pos p.skb.pcount -ℤ pos p.buff.pcount) == 0) (λ e. ground arith)
      (λ _. refl))

ok-injective : (d e : Done) → ok d ≡ ok e → d ≡ e
ok-injective d e p = cc

err≢ok : {P : Type 0} (x : Error) (d : Done) → err x ≡ ok d → P
err≢ok x d p = cc

-- A split that succeeds has a new buffer and is the cut with it.
tcp_fragment-cut :
    (m : Memory) (q : Queue) (len mss_now : ℕ) (at : Around) (skb : Buff) (c : Counters) (d : Done)
    → tcp_fragment m q len mss_now at skb c ≡ ok d
    → (fresh : Buff) × (cut m q len mss_now at skb fresh c ≡ d)
unfolding tcp_fragment
tcp_fragment-cut m q len mss_now at skb c d =
    let P : Fragmented → Type 0 =
      λ r. r ≡ ok d → (fresh : Buff) × (cut m q len mss_now at skb fresh c ≡ d) in
    if-cases P (ltb skb.pages.len len) (λ _ p. err≢ok einval d p)
      (λ _.
        if-cases P (too_big m q at c || not (m.unclone skb)) (λ _ p. err≢ok enomem d p)
          (λ _.
            elim m.tcp_stream_alloc_skb
              as (λ o. P (elim o [
                | none ↦ err enomem
                | some fresh ↦ ok (cut m q len mss_now at skb fresh c)
              ])) [
                | none ↦ λ p. err≢ok enomem d p
                | some fresh ↦ λ p. (fresh, ok-injective (cut m q len mss_now at skb fresh c) d p)
              ]))

-- A buffer that was sent already is split without losing count: `packets_out` is the number of
-- segments of the retransmit queue afterwards, if it was before, modulo 2 ^ 32.
pub tcp_fragment-packets :
    (m : Memory) (q : Queue) (len mss_now : ℕ) (at : Around) (skb : Buff) (c : Counters) (d : Done)
    → Inserts m
    → tcp_fragment m q len mss_now at skb c ≡ ok d
    → m.splitter.order.before c.snd_nxt d.pair.buff.end_seq ≡ false
    → skb.pcount < 2 ^ 31
    → d.pair.skb.pcount < 2 ^ 31
    → d.pair.buff.pcount < 2 ^ 30
    → c.packets_out ≡ u32 (total (at.earlier ++ skb ∷ at.later))
    → d.counters.packets_out ≡ u32 (total d.queue)
unfolding tcp_fragment cut
tcp_fragment-packets m q len mss_now at skb c d ins e sent x y z h =
    let made = tcp_fragment-cut m q len mss_now at skb c d e in
    let fresh = made.0 in
    let D = cut m q len mss_now at skb fresh c in
    subst
      (λ (r : Done).
        m.splitter.order.before c.snd_nxt r.pair.buff.end_seq ≡ false
        → r.pair.skb.pcount < 2 ^ 31
        → r.pair.buff.pcount < 2 ^ 30
        → r.counters.packets_out ≡ u32 (total r.queue))
      made.1
      (λ s a b.
        recounted-packets m.splitter skb.pcount D.pair
          (record c { wmem_queued = add32 c.wmem_queued fresh.truesize }) s (omega arith)
        ∙ diff-word c.packets_out D.pair.skb.pcount D.pair.buff.pcount skb.pcount (total at.earlier)
            (total at.later) (h ∙ ap (λ n. u32 n) (total-append at.earlier (skb ∷ at.later))) x a b
        ∙ ap (λ n. u32 n) (sym (total-insert m q at D.pair.skb D.pair.buff ins)))
      sent y z
