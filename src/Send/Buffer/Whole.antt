-- ===== src/Send/Buffer/Whole.antt =====
-- What trimming and splitting a buffer of redhat_kernel/tcp_output.c leave of its bytes, sequence
-- numbers, flags and segments.
use starlink_tcp.Common.{
  ℕ, zero, suc, ◌+◌, ◌-◌, ◌≤◌, ◌<◌, ◌^◌, ◌≡◌, refl, sym, ap, ◌∙◌, arith, List, [], ◌∷◌, ◌++◌, false,
  not, ◌&&◌, ◌||◌, Bool-cases, ◌⊎◌, inl, inr, leb, if◌then◌else◌, length, take, drop, length-take,
  length-drop, take-drop, drop-zero, add32,
}
use starlink_tcp.Send.Limits.{Order}
use starlink_tcp.Send.Buffer.{
  Pages, bytes, Buff, payload, div_round_up, tcp_set_skb_tso_segs, tcp_has_tx_tstamp, Pair,
  tcp_fragment_tstamp, tcp_skb_fragment_eor, trim_frags, Splitter, divided, counted,
}

-- A FIN takes a sequence number.
abbrev pub fin_room : Buff → ℕ
fin_room skb = if skb.fin then 1 else 0

-- The length is that of the bytes and fits a word, and the sequence numbers agree with it.
pub record IsSound (skb : Buff) : Type 0 where
  pub exact : skb.pages.len ≡ length (payload skb)
  pub ends : skb.end_seq ≡ add32 skb.seq (skb.pages.len + fin_room skb)
  pub short : skb.pages.len < 2 ^ 31
  pub word : skb.seq < 2 ^ 32

-- The memory that is charged for a buffer covers its bytes, and is counted in a word.
pub record IsCharged (skb : Buff) : Type 0 where
  pub charged : skb.pages.len ≤ skb.truesize
  pub sized : skb.truesize < 2 ^ 32

-- The number of segments of `mss_now` bytes that `n` bytes take, at least one.
abbrev pub segments : ℕ → ℕ → ℕ
segments mss_now n = if leb n mss_now then 1 else div_round_up n mss_now

-- The segments are those of the bytes, unless there is one only or none are counted yet.
abbrev pub IsCounted : Buff → Type 0
IsCounted skb = (skb.pcount ≤ 1) ⊎ (skb.pcount ≡ segments skb.gso_size skb.pages.len)

-- What `skb_split` documents: the first `len` bytes stay, the others go to the second buffer.
pub record Splits (s : Splitter) : Type 0 where
  pub stays : (n : ℕ) (p : Pages) → n ≤ p.len → (s.skb_split n p).0.len ≡ n
  pub goes : (n : ℕ) (p : Pages) → n ≤ p.len → (s.skb_split n p).1.len ≡ p.len - n
  pub head :
      (n : ℕ) (p : Pages) → n ≤ p.len → bytes ((s.skb_split n p).0.frags) ≡ take n (bytes p.frags)
  pub tail :
      (n : ℕ) (p : Pages) → n ≤ p.len → bytes ((s.skb_split n p).1.frags) ≡ drop n (bytes p.frags)

drop-over {ℓ} :
    {A : Type ℓ} (n : ℕ) (xs ys : List A) → drop n (xs ++ ys) ≡ drop n xs ++ drop (n - length xs) ys
drop-over n [] ys = ap (λ k. drop k ys) (omega arith)
drop-over zero (x ∷ xs) ys =
    ap (λ t. x ∷ (xs ++ t)) (sym (drop-zero ys)) ∙ ap (λ k. x ∷ (xs ++ drop k ys)) (omega arith)
drop-over (suc n) (x ∷ xs) ys = drop-over n xs ys ∙ ap (λ k. drop n xs ++ drop k ys) (omega arith)

drop-all {ℓ} : {A : Type ℓ} (n : ℕ) (xs : List A) → length xs ≤ n → drop n xs ≡ []
drop-all n [] h = refl
drop-all zero (x ∷ xs) h = ground arith
drop-all (suc n) (x ∷ xs) h = drop-all n xs (omega arith)

-- The loop over the fragments drops the first `eat` bytes of the whole.
pub bytes-trim_frags :
    (eat : ℕ) (fs : List (List ℕ)) → bytes (trim_frags eat fs) ≡ drop eat (bytes fs)
unfolding trim_frags
bytes-trim_frags eat [] = refl
bytes-trim_frags eat (f ∷ fs) = elim (Bool-cases (leb (length f) eat)) [
  | inl e ↦ rw e (
      bytes-trim_frags (eat - length f) fs
      ∙ ap (λ t. t ++ drop (eat - length f) (bytes fs)) (sym (drop-all eat f (ground arith)))
      ∙ sym (drop-over eat f (bytes fs)))
  | inr e ↦ rw e (
      let over : eat - length f ≡ 0 = ground arith in
      ap (λ t. drop eat f ++ t) (bytes-trim_frags 0 fs ∙ ap (λ k. drop k (bytes fs)) (sym over))
      ∙ sym (drop-over eat f (bytes fs)))
]

-- `one` and `two` are what became of `skb`, cut after `n` bytes into segments of `mss_now`.
pub record IsCut (mss_now n : ℕ) (skb one two : Buff) : Type 0 where
  pub one-IsSound : IsSound one
  pub two-IsSound : IsSound two
  pub one-len : one.pages.len ≡ n
  pub two-len : two.pages.len ≡ skb.pages.len - n
  pub joined : payload one ++ payload two ≡ payload skb
  pub start_seq : one.seq ≡ skb.seq
  pub meets : two.seq ≡ one.end_seq
  pub end_same : two.end_seq ≡ skb.end_seq
  pub one-plain : (one.fin ≡ false) × (one.psh ≡ false) × (one.eor ≡ false)
  pub two-marks : (two.fin ≡ skb.fin) × (two.psh ≡ skb.psh) × (two.eor ≡ skb.eor)
  pub one-pcount : one.pcount ≡ segments mss_now n
  pub two-pcount : two.pcount ≡ segments mss_now (skb.pages.len - n)
  pub one-IsCounted : IsCounted one
  pub two-IsCounted : IsCounted two

-- The counting of the segments changes no other field.
pub tcp_set_skb_tso_segs_lem :
    (mss_now : ℕ) (skb : Buff)
    → tcp_set_skb_tso_segs mss_now skb ≡ record skb {
      pcount = segments mss_now skb.pages.len;
      gso_size = if leb skb.pages.len mss_now then 0 else mss_now;
    }
unfolding tcp_set_skb_tso_segs
tcp_set_skb_tso_segs_lem mss_now skb = elim (Bool-cases (leb skb.pages.len mss_now)) [
  | inl e ↦ rw e refl
  | inr e ↦ rw e refl
]

-- Nor do the time stamps that move.
tcp_fragment_tstamp_lem :
    (order : Order) (p : Pair)
    → let moves = tcp_has_tx_tstamp p.skb && not (order.before p.skb.tskey p.buff.seq) in
      tcp_fragment_tstamp order p ≡ record {
        skb = record (p.skb) {
          tx_any = if moves then false else p.skb.tx_any;
          tskey = if moves then p.buff.tskey else p.skb.tskey;
          txstamp_ack = if moves then false else p.skb.txstamp_ack;
        };
        buff = record (p.buff) {
          tx_any = if moves then p.buff.tx_any || p.skb.tx_any else p.buff.tx_any;
          tskey = if moves then p.skb.tskey else p.buff.tskey;
          txstamp_ack = if moves then p.skb.txstamp_ack else p.buff.txstamp_ack;
        };
      }
unfolding tcp_fragment_tstamp
tcp_fragment_tstamp_lem order p =
    elim (Bool-cases (tcp_has_tx_tstamp p.skb && not (order.before p.skb.tskey p.buff.seq))) [
      | inl e ↦ rw e refl
      | inr e ↦ rw e refl
    ]

seq_split : (seq n len f : ℕ) → n ≤ len → add32 seq (len + f) ≡ add32 (add32 seq n) (len - n + f)
seq_split seq n len f h = omega arith

-- The parts of a buffer share out its memory, and the second has that of the new buffer as well.
pub counted-truesizes :
    (s : Splitter) (mss_now n : ℕ) (skb fresh : Buff)
    → IsCharged skb
    → n ≤ skb.pages.len
    → skb.truesize + fresh.truesize < 2 ^ 32
    → let p = counted mss_now (divided s n skb fresh) in
      p.skb.truesize + p.buff.truesize ≡ skb.truesize + fresh.truesize
unfolding counted divided tcp_skb_fragment_eor
counted-truesizes s mss_now n skb fresh ok h t =
    let charged = ok.charged in
    rw (tcp_fragment_tstamp_lem, tcp_set_skb_tso_segs_lem, tcp_set_skb_tso_segs_lem) (omega arith)

pub segments-counts :
    (mss_now n : ℕ)
    → (segments mss_now n ≤ 1)
      ⊎ (segments mss_now n ≡ segments (if leb n mss_now then 0 else mss_now) n)
segments-counts mss_now n = elim (Bool-cases (leb n mss_now)) [
  | inl e ↦ rw e (inl (omega arith))
  | inr e ↦ rw e (inr (rw e refl))
]

-- A sound buffer that is cut makes two sound ones, which together are what it was: the bytes, the
-- sequence numbers and the flags.
pub counted-IsCut :
    (s : Splitter) (mss_now n : ℕ) (skb fresh : Buff)
    → Splits s
    → IsSound skb
    → n ≤ skb.pages.len
    → let p = counted mss_now (divided s n skb fresh) in IsCut mss_now n skb p.skb p.buff
unfolding counted divided tcp_skb_fragment_eor
counted-IsCut s mss_now n skb fresh sp ok h =
    let ps = s.skb_split n skb.pages in
    let short = ok.short in
    let word = ok.word in
    let stays = sp.stays n skb.pages h in
    let goes = sp.goes n skb.pages h in
    let hd = sp.head n skb.pages h in
    let tl = sp.tail n skb.pages h in
    let hdlen : n ≡ length (bytes (ps.0.frags)) =
      omega (arith, length-take n (payload skb), ok.exact) ∙ ap (λ l. length l) (sym hd) in
    let tllen : skb.pages.len - n ≡ length (bytes (ps.1.frags)) =
      omega (arith, length-drop n (payload skb), ok.exact) ∙ ap (λ l. length l) (sym tl) in
    rw (tcp_fragment_tstamp_lem, tcp_set_skb_tso_segs_lem, tcp_set_skb_tso_segs_lem)
      (record {
        one-IsSound = record {
          exact = stays ∙ hdlen;
          ends = rw stays (omega arith);
          short = rw stays (omega arith);
          word = word;
        };
        two-IsSound = record {
          exact = goes ∙ tllen;
          ends = ok.ends ∙ rw goes (seq_split skb.seq n skb.pages.len (fin_room skb) h);
          short = rw goes (omega arith);
          word = omega arith;
        };
        one-len = stays;
        two-len = goes;
        joined = rw (hd, tl) (take-drop n (payload skb));
        start_seq = refl;
        meets = refl;
        end_same = refl;
        one-plain = (refl, refl, refl);
        two-marks = (refl, refl, refl);
        one-pcount = rw stays refl;
        two-pcount = rw goes refl;
        one-IsCounted = segments-counts mss_now ps.0.len;
        two-IsCounted = segments-counts mss_now ps.1.len;
      })
