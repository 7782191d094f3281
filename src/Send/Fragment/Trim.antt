-- ===== src/Send/Fragment/Trim.antt =====
-- What `tcp_trim_head` of redhat_kernel/tcp_output.c leaves of a buffer.
use starlink_tcp.Common.{
  ℕ, ◌+◌, ◌-◌, ◌≤◌, ◌≡◌, refl, sym, ap, ◌∙◌, arith, Bool, false, ltb, length, drop, length-drop,
  add32, sub32, if-cases,
}
use starlink_tcp.Send.Buffer.{Buff, payload, pskb_trim_head}
use starlink_tcp.Send.Buffer.Whole.{
  IsCharged, fin_room, IsSound, bytes-trim_frags, tcp_set_skb_tso_segs_lem,
}
use starlink_tcp.Send.Fragment.{Memory, Trimmed, trimmed, no_memory, trimmed_head, tcp_trim_head}

-- What is left of a sent buffer whose first `len` bytes are acknowledged.
pub record IsTail (len : ℕ) (skb kept : Buff) : Type 0 where
  pub kept-IsSound : IsSound kept
  pub starts : kept.seq ≡ add32 skb.seq len
  pub rest : payload kept ≡ drop len (payload skb)
  pub end_same : kept.end_seq ≡ skb.end_seq
  pub kept-IsCharged : IsCharged kept
  pub size : kept.truesize + len ≡ skb.truesize

abbrev pub IsTrimmed : ℕ → Buff → ℕ → Bool → Trimmed → Type 0
IsTrimmed len skb wmem_queued unclone (trimmed kept wmem) =
    IsTail len skb kept × (wmem ≡ sub32 wmem_queued len)
IsTrimmed len skb wmem_queued unclone no_memory = unclone ≡ false

trim_seq : (seq len n f : ℕ) → len ≤ n → add32 seq (n + f) ≡ add32 (add32 seq len) (n - len + f)
trim_seq seq len n f h = omega arith

trimmed_head-IsTail :
    (len : ℕ) (skb : Buff)
    → IsSound skb
    → IsCharged skb
    → len ≤ skb.pages.len
    → IsTail len skb (trimmed_head len skb)
unfolding trimmed_head pskb_trim_head
trimmed_head-IsTail len skb sound c h =
    let short = sound.short in
    let word = sound.word in
    let charged = c.charged in
    let sized = c.sized in
    let left : sub32 skb.pages.len len ≡ skb.pages.len - len = omega arith in
    let bytes_left = bytes-trim_frags len skb.pages.frags in
    let exact : skb.pages.len - len ≡ length (payload (pskb_trim_head len skb)) =
      omega (arith, length-drop len (payload skb), sound.exact)
      ∙ ap (λ l. length l) (sym bytes_left) in
    let ends = sound.ends ∙ trim_seq skb.seq len skb.pages.len (fin_room skb) h in
    if-cases (λ (b : Buff). IsTail len skb b) (ltb 1 skb.pcount)
      (λ _.
        rw (tcp_set_skb_tso_segs_lem, left)
          (record {
            kept-IsSound = record {
              exact = exact;
              ends = ends;
              short = omega arith;
              word = omega arith;
            };
            starts = refl;
            rest = bytes_left;
            end_same = refl;
            kept-IsCharged = record { charged = omega arith; sized = omega arith };
            size = omega arith;
          }))
      (λ _. rw left (record {
        kept-IsSound = record {
          exact = exact;
          ends = ends;
          short = omega arith;
          word = omega arith;
        };
        starts = refl;
        rest = bytes_left;
        end_same = refl;
        kept-IsCharged = record { charged = omega arith; sized = omega arith };
        size = omega arith;
      }))

-- `tcp_trim_head` fails only when a shared buffer cannot be copied. Otherwise the first `len` bytes
-- are gone and the sequence numbers begin that much later, the buffer is as sound as it was, and
-- the memory queued falls by what the buffer gives up. The buffer has these bytes.
pub tcp_trim_head-IsTrimmed :
    (m : Memory) (len : ℕ) (skb : Buff) (wmem_queued : ℕ)
    → IsSound skb
    → IsCharged skb
    → len ≤ skb.pages.len
    → IsTrimmed len skb wmem_queued (m.unclone skb) (tcp_trim_head m len skb wmem_queued)
unfolding tcp_trim_head
tcp_trim_head-IsTrimmed m len skb wmem_queued sound c h =
    if-cases (IsTrimmed len skb wmem_queued (m.unclone skb)) (m.unclone skb)
      (λ _. (trimmed_head-IsTail len skb sound c h, refl)) (λ e. e)
