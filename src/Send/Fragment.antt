-- ===== src/Send/Fragment.antt =====
-- The split of a buffer that may have been sent, and the removal of bytes that are acknowledged:
-- `tcp_fragment` and `tcp_trim_head` of redhat_kernel/tcp_output.c.
pub mod Outcome
pub mod Trim
use starlink_tcp.Common.{
  ℕ, ◌+◌, ◌-◌, ◌*◌, ◌/◌, ◌^◌, List, [], ◌∷◌, ◌++◌, Bool, true, false, not, ◌&&◌, ◌||◌, Option, none,
  some, ltb, leb, ◌==◌, min, if◌then◌else◌, add32, sub32, u32,
}
use starlink_tcp.Common.Int.{ℤ, pos, ◌-ℤ◌, ◌+ℤ◌, ltb_ℤ, u32_of_int, pos_part}
use starlink_tcp.Send.Buffer.{
  Buff, Pair, Splitter, divided, counted, pskb_trim_head, tcp_set_skb_tso_segs,
}

-- The counters of a socket that a split changes: `reno` is `tcp_is_reno`, `lost_skb_hint` the
-- sequence number of that buffer, if there is one.
pub record Counters : Type 0 where
  pub snd_nxt : ℕ
  pub packets_out : ℕ
  pub sacked_out : ℕ
  pub retrans_out : ℕ
  pub lost_out : ℕ
  pub reno : Bool
  pub lost_skb_hint : Option ℕ
  pub lost_cnt_hint : ℤ
  pub wmem_queued : ℕ
  pub sndbuf : ℕ

-- `u32 -= int`.
abbrev pub sub_int : ℕ → ℤ → ℕ
sub_int n d = sub32 n (u32_of_int d)

abbrev pub hinted : Splitter → Option ℕ → Buff → Bool
hinted s none skb = false
hinted s (some seq) skb = s.order.before skb.seq seq && skb.sacked_acked

-- `sacked_out` is lowered twice for Reno if the buffer is marked too.
pub tcp_adjust_pcount : Splitter → Buff → ℤ → Counters → Counters
tcp_adjust_pcount s skb decr c =
    let sacked = if skb.sacked_acked then sub_int c.sacked_out decr else c.sacked_out in
    record c {
      packets_out = sub_int c.packets_out decr;
      sacked_out =
          if c.reno && ltb_ℤ (pos 0) decr then sacked - min sacked (pos_part decr) else sacked;
      retrans_out = if skb.sacked_retrans then sub_int c.retrans_out decr else c.retrans_out;
      lost_out = if skb.lost then sub_int c.lost_out decr else c.lost_out;
      lost_cnt_hint =
          if hinted s c.lost_skb_hint skb then c.lost_cnt_hint -ℤ decr else c.lost_cnt_hint;
    }

-- `enum tcp_queue` of the kernel's headers.
pub data Queue : Type 0 where
  write rtx : Queue

-- The buffers before `skb` in its queue and those after it.
pub record Around : Type 0 where
  pub earlier : List Buff
  pub later : List Buff

-- What memory and the other code give: whether the buffer can be made private
-- (`skb_unclone_keeptruesize`), a new buffer, the insertion into the tree of sent buffers, and
-- SKB_TRUESIZE(GSO_LEGACY_MAX_SIZE).
pub record Memory : Type 0 where
  pub splitter : Splitter
  pub unclone : Buff → Bool
  pub tcp_stream_alloc_skb : Option Buff
  pub tcp_rbtree_insert : Buff → List Buff → List Buff
  pub legacy_truesize : ℕ

-- `skb_shinfo` and control block of the new buffer in `tcp_fragment`: the marks of the scoreboard
-- and the time of sending are those of the old one.
abbrev pub marked : Buff → Buff → Buff
marked skb buff = record buff {
  sacked_acked = skb.sacked_acked;
  sacked_retrans = skb.sacked_retrans;
  lost = skb.lost;
  tstamp = skb.tstamp;
}

pub data Error : Type 0 where
  einval enomem : Error

-- `skb` and `buff` with the queue that has them.
pub record Done : Type 0 where
  pub pair : Pair
  pub queue : List Buff
  pub counters : Counters

pub data Fragmented : Type 0 where
  ok : Done → Fragmented
  err : Error → Fragmented

abbrev pub is_empty {ℓ} : {A : Type ℓ} → List A → Bool
is_empty [] = true
is_empty (x ∷ xs) = false

-- The limit on queued memory, which a buffer of the write queue and the first and the last sent
-- one are exempt from.
unfoldable pub too_big : Memory → Queue → Around → Counters → Bool
too_big m write at c = false
too_big m rtx at c =
    ltb (c.sndbuf + 2 * m.legacy_truesize) (c.wmem_queued / 2)
    && not (is_empty at.earlier)
    && not (is_empty at.later)

pub tcp_insert_write_queue_after : Memory → Queue → Around → Buff → Buff → List Buff
tcp_insert_write_queue_after m write at skb buff = at.earlier ++ skb ∷ buff ∷ at.later
tcp_insert_write_queue_after m rtx at skb buff =
    m.tcp_rbtree_insert buff (at.earlier ++ skb ∷ at.later)

-- A buffer that was sent already takes the counters with it.
pub recounted : Splitter → ℕ → Pair → Counters → Counters
unfolding tcp_adjust_pcount
recounted s old_factor p c =
    let diff = pos old_factor -ℤ pos p.skb.pcount -ℤ pos p.buff.pcount in
    if s.order.before c.snd_nxt p.buff.end_seq || u32_of_int diff == 0
    then c
    else tcp_adjust_pcount s p.skb diff c

unfoldable pub cut : Memory → Queue → ℕ → ℕ → Around → Buff → Buff → Counters → Done
cut m q len mss_now at skb fresh c =
    let p = counted mss_now (divided m.splitter len skb (marked skb fresh)) in
    record {
      pair = p;
      queue = tcp_insert_write_queue_after m q at p.skb p.buff;
      counters =
          recounted m.splitter skb.pcount p
            (record c { wmem_queued = add32 c.wmem_queued fresh.truesize });
    }

unfoldable pub tcp_fragment : Memory → Queue → ℕ → ℕ → Around → Buff → Counters → Fragmented
tcp_fragment m q len mss_now at skb c =
    if ltb skb.pages.len len
    then err einval
    else if too_big m q at c || not (m.unclone skb)
    then err enomem
    else elim m.tcp_stream_alloc_skb [
      | none ↦ err enomem
      | some fresh ↦ ok (cut m q len mss_now at skb fresh c)
    ]

-- What `tcp_trim_head` leaves: -ENOMEM, or the buffer and the memory queued.
pub data Trimmed : Type 0 where
  trimmed : Buff → ℕ → Trimmed
  no_memory : Trimmed

-- `tcp_skb_mss` is `gso_size`.
pub trimmed_head : ℕ → Buff → Buff
trimmed_head len skb =
    let cut = pskb_trim_head len skb in
    let moved = record cut { seq = add32 skb.seq len; truesize = sub32 skb.truesize len } in
    if ltb 1 skb.pcount then tcp_set_skb_tso_segs skb.gso_size moved else moved

pub tcp_trim_head : Memory → ℕ → Buff → ℕ → Trimmed
unfolding trimmed_head
tcp_trim_head m len skb wmem_queued =
    if m.unclone skb then trimmed (trimmed_head len skb) (sub32 wmem_queued len) else no_memory
