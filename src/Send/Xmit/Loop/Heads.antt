-- ===== src/Send/Xmit/Loop/Heads.antt =====
-- What a turn of the loop of `tcp_write_xmit`, redhat_kernel/tcp_output.c, makes of the head of the
-- queue, and what the tests of the windows let out of it.
use starlink_tcp.Common.{
  ℕ, ◌+◌, ◌-◌, ◌*◌, ◌^◌, ◌≤◌, ◌<◌, ◌≡◌, ◌≢◌, refl, sym, ap, ◌∙◌, arith, List, Bool, true, false,
  not, ◌&&◌, ◌||◌, ◌==◌, ltb, leb, min, if-cases, if◌then◌else◌, sub32, add32, inl, inr, Bool-cases,
  lt-or-le,
}
use starlink_tcp.Send.Limits.{Order, Sender, tcp_cwnd_test, tcp_snd_wnd_test}
use starlink_tcp.Send.Limits.Split.{tcp_mss_split_point-IsPart}
use starlink_tcp.Send.Buffer.{Buff, seen, div_round_up, tcp_init_tso_segs}
use starlink_tcp.Send.Buffer.Whole.{
  IsSound, IsCounted, Splits, segments, fin_room, tcp_set_skb_tso_segs_lem, segments-counts,
}
use starlink_tcp.Send.Xmit.{Sk, Host}
use starlink_tcp.Send.Xmit.Loop.{Call, is_last, limit_of}
use starlink_tcp.Send.Xmit.Loop.Steps.{max_window}
use native.Mathlib.Nat.{div-lt_iff_lt-mul, mul-le-mul_left}

-- `before(a, b)` is `(s32)(a - b) < 0`.
pub record IsSerial (order : Order) : Type 0 where
  pub serial : (a b : ℕ) → order.before a b ≡ leb (2 ^ 31) (sub32 a b)

-- What the loop is called with: a segment size that is a size, a limit of segments that fits a
-- word, and no forced probe.
pub record IsCall (h : Host) (c : Call) : Type 0 where
  pub splits : Splits h.splitter
  pub order : IsSerial (h.splitter.order)
  pub some_mss : 0 < c.mss_now
  pub small_mss : c.mss_now < 2 ^ 30
  pub small : c.mss_now * c.max_segs < 2 ^ 32
  pub no_probe : c.push_one ≢ 2

-- The head as it is counted: some segments, no more than its bytes take.
segments-pos : (mss_now n : ℕ) → 0 < mss_now → 1 ≤ segments mss_now n
segments-pos mss_now n p =
    if-cases (λ (m : ℕ). 1 ≤ m) (leb n mss_now) (λ _. omega arith)
      (λ e.
        let d = div-lt_iff_lt-mul {k = mss_now} {x = n + mss_now - 1} {y = 1} p in
        elim (lt-or-le (div_round_up n mss_now) 1) [ inl l ↦ ground (arith, d.0 l) | inr l ↦ l ])

abbrev IsInit : ℕ → Buff → Buff → Type 0
IsInit mss_now skb b =
    (1 ≤ b.pcount)
    × (b.pcount ≤ segments mss_now skb.pages.len)
    × IsCounted (record skb { pcount = b.pcount; gso_size = b.gso_size })
    × (b ≡ record skb { pcount = b.pcount; gso_size = b.gso_size })

kept_count :
    (mss_now : ℕ) (skb : Buff)
    → 0 < mss_now
    → IsCounted skb
    → (skb.pcount == 0 || (ltb 1 skb.pcount && not (skb.gso_size == mss_now))) ≡ false
    → skb.pcount ≤ segments mss_now skb.pages.len
kept_count mss_now skb p c e =
    let some_segs = segments-pos mss_now skb.pages.len p in
    elim c [
      | inl l ↦ omega (arith, some_segs)
      | inr l ↦ elim (lt-or-le 1 skb.pcount) [
        | inl m ↦
            let same : skb.gso_size ≡ mss_now = ground arith in
            omega (arith, l ∙ ap (λ g. segments g skb.pages.len) same)
        | inr m ↦ omega (arith, some_segs)
      ]
    ]

pub tcp_init_tso_segs-IsInit :
    (mss_now : ℕ) (skb : Buff)
    → 0 < mss_now
    → IsCounted skb
    → IsInit mss_now skb (tcp_init_tso_segs mss_now skb)
unfolding tcp_init_tso_segs
tcp_init_tso_segs-IsInit mss_now skb p c =
    if-cases (IsInit mss_now skb)
      (skb.pcount == 0 || (ltb 1 skb.pcount && not (skb.gso_size == mss_now)))
      (λ _. rw tcp_set_skb_tso_segs_lem (
        segments-pos mss_now skb.pages.len p,
        omega arith,
        segments-counts mss_now skb.pages.len,
        refl,
      ))
      (λ e. (ground arith, kept_count mss_now skb p c e, c, refl))

window_room :
    (w seq k m : ℕ)
    → seq < 2 ^ 32
    → k ≤ max_window
    → m ≤ k
    → leb (2 ^ 31) (sub32 w (add32 seq k)) ≡ false
    → (m ≤ sub32 w seq) × (sub32 w seq < 2 ^ 32 - max_window)
window_room w seq k m a b c d = (ground arith, ground arith)

fin_le : (skb : Buff) → skb.pages.len < max_window → skb.pages.len + fin_room skb ≤ max_window
fin_le skb h = ground arith

-- The test of the peer's window lets the first segment in.
tcp_snd_wnd_test-fits :
    (order : Order) (tp : Sender) (skb : Buff) (cur_mss : ℕ)
    → IsSerial order
    → IsSound skb
    → cur_mss < 2 ^ 30
    → tcp_snd_wnd_test order tp (seen skb) cur_mss ≡ true
    → (min cur_mss skb.pages.len ≤ sub32 tp.wnd_end skb.seq)
      × (sub32 tp.wnd_end skb.seq < 2 ^ 32 - max_window)
unfolding tcp_snd_wnd_test
tcp_snd_wnd_test-fits order tp skb cur_mss o s l e =
    let word = s.word in
    let len = skb.pages.len in
    let last = if ltb cur_mss len then add32 skb.seq cur_mss else skb.end_seq in
    let near : leb (2 ^ 31) (sub32 tp.wnd_end last) ≡ false =
      sym (o.serial tp.wnd_end last) ∙ ground arith in
    elim (Bool-cases (ltb cur_mss len)) [
      | inl t ↦
          window_room tp.wnd_end skb.seq cur_mss (min cur_mss len) word (omega arith) (omega arith)
            (sym (
                ap
                  (λ b.
                    leb (2 ^ 31)
                      (sub32 tp.wnd_end (if b then add32 skb.seq cur_mss else skb.end_seq)))
                  t)
              ∙ near)
      | inr t ↦
          window_room tp.wnd_end skb.seq (len + fin_room skb) (min cur_mss len) word
            (fin_le skb (ground arith)) (omega arith)
            (sym (
                ap
                  (λ b.
                    leb (2 ^ 31)
                      (sub32 tp.wnd_end (if b then add32 skb.seq cur_mss else skb.end_seq)))
                  t
                ∙ ap (λ n. leb (2 ^ 31) (sub32 tp.wnd_end n)) s.ends)
              ∙ near)
    ]

-- The bytes that may go are no more than the quota's segments, and lie in the peer's window.
pub limit_of-fits :
    (h : Host) (c : Call) (quota : ℕ) (sk : Sk) (skb : Buff) (rest : List Buff)
    → IsCall h c
    → IsSound skb
    → 0 < quota
    → tcp_snd_wnd_test h.splitter.order sk.tp (seen skb) c.mss_now ≡ true
    → let limit = limit_of h c quota sk skb rest in
      (limit ≤ c.mss_now * quota)
      × (min limit skb.pages.len ≤ sub32 sk.tp.wnd_end skb.seq)
      × (sub32 sk.tp.wnd_end skb.seq < 2 ^ 32 - max_window)
unfolding limit_of
limit_of-fits h c quota sk skb rest ok s q e =
    let max_segs = min quota c.max_segs in
    let window = sub32 sk.tp.wnd_end skb.seq in
    let near =
      tcp_snd_wnd_test-fits h.splitter.order sk.tp skb c.mss_now ok.order s ok.small_mss e in
    if-cases
      (λ (n : ℕ).
        (n ≤ c.mss_now * quota) × (min n skb.pages.len ≤ window) × (window < 2 ^ 32 - max_window))
      (ltb 1 skb.pcount && sk.tp.snd_una == sk.tp.snd_up)
      (λ _.
        let part =
          tcp_mss_split_point-IsPart h.splitter.order sk.tp (seen skb) (is_last rest) c.mss_now
            max_segs c.nonagle
            (omega (
              arith,
              ok.small,
              mul-le-mul_left {m = max_segs} {n = c.max_segs} c.mss_now (omega arith),
            )) in
        let fits = part.fits in
        (
          omega (arith, fits, mul-le-mul_left {m = max_segs} {n = quota} c.mss_now (omega arith)),
          omega (arith, fits),
          near.1,
        ))
      (λ _. (
        omega (arith, mul-le-mul_left {m = 1} {n = quota} c.mss_now (omega arith)),
        near.0,
        near.1,
      ))

-- A quota for more than one segment comes of an open congestion window.
pub tcp_cwnd_test-opens :
    (tp : Sender) (skb : Buff)
    → tcp_cwnd_test tp (seen skb) ≢ 0
    → 1 < skb.pcount
    → tp.in_flight < tp.snd_cwnd
unfolding tcp_cwnd_test
tcp_cwnd_test-opens tp skb n p = ground arith

pub some_quota :
    (quota push_one : ℕ)
    → (quota == 0 && not (push_one == 2)) ≡ false
    → push_one ≢ 2
    → (quota ≢ 0) × ((if quota == 0 then 1 else quota) ≡ quota)
some_quota quota push_one e n = ground arith

pub one_segment : (fin r : Bool) (n : ℕ) → (fin || r) ≡ false → (fin && n == 1) ≡ false
one_segment fin r n e = ground arith
