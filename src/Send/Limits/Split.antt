-- ===== src/Send/Limits/Split.antt =====
-- The part of a buffer that redhat_kernel/tcp_output.c sends.
use starlink_tcp.Common.{
  ℕ, ◌-◌, ◌*◌, ◌/◌, ◌%◌, ◌^◌, ◌≤◌, ◌<◌, ◌≡◌, ◌⊎◌, inl, inr, arith, ap, ◌∙◌, Bool, true, false, not,
  ◌&&◌, ◌||◌, ◌==◌, leb, min, Bool-cases, if-cases, sub32, mul32,
}
use starlink_tcp.Send.Limits.{
  Order, Sender, Skb, NoNagle, tcp_nagle_check, whole_segments, tcp_mss_split_point,
}
use native.Mathlib.Nat.{div-add-mod', mul-mod_left, mul-mod_right}

-- At most `room` bytes, in whole segments, unless Nagle's rules let the end go.
pub record IsPart (order : Order) (tp : Sender) (mss_now room : ℕ) (nonagle : NoNagle) (part : ℕ)
    : Type 0 where
  pub fits : part ≤ room
  pub whole : (part % mss_now ≡ 0) ⊎ (tcp_nagle_check order true tp nonagle ≡ false)

mod-whole : (n m : ℕ) → (n - n % m) % m ≡ 0
mod-whole n m =
    let whole : n - n % m ≡ n / m * m = omega (arith, div-add-mod' n m) in
    ap (λ k. k % m) whole ∙ mul-mod_left (n / m) m

whole_segments-IsPart :
    (order : Order) (tp : Sender) (needed mss_now : ℕ) (nonagle : NoNagle)
    → IsPart order tp mss_now needed nonagle (whole_segments order tp needed mss_now nonagle)
unfolding whole_segments
whole_segments-IsPart order tp needed mss_now nonagle =
    let P : ℕ → Type 0 = IsPart order tp mss_now needed nonagle in
    elim (Bool-cases (needed % mss_now == 0)) [
      | inl e ↦ rw e (record { fits = omega arith; whole = inl (ground arith) })
      | inr e ↦ rw e (
          if-cases P (tcp_nagle_check order true tp nonagle)
            (λ _. record { fits = omega arith; whole = inl (mod-whole needed mss_now) })
            (λ c. record { fits = omega arith; whole = inr c }))
    ]

pub tcp_mss_split_point-IsPart :
    (order : Order) (tp : Sender) (skb : Skb) (tail : Bool) (mss_now max_segs : ℕ)
    (nonagle : NoNagle)
    → mss_now * max_segs < 2 ^ 32
    → let part = tcp_mss_split_point order tp skb tail mss_now max_segs nonagle in
      IsPart order tp mss_now (min (sub32 tp.wnd_end skb.seq) (mss_now * max_segs)) nonagle part
unfolding tcp_mss_split_point
tcp_mss_split_point-IsPart order tp skb tail mss_now max_segs nonagle h =
    let window = sub32 tp.wnd_end skb.seq in
    let max_len = mul32 mss_now max_segs in
    let needed = min skb.len window in
    let exact : max_len ≡ mss_now * max_segs = omega arith in
    let part = whole_segments-IsPart order tp needed mss_now nonagle in
    if-cases (λ (n : ℕ). IsPart order tp mss_now (min window (mss_now * max_segs)) nonagle n)
      ((leb max_len window && not tail) || leb max_len needed)
      (λ e. record {
        fits = ground arith;
        whole = inl (ap (λ k. k % mss_now) exact ∙ mul-mod_right mss_now max_segs);
      })
      (λ e. record { fits = ground (arith, part.fits); whole = part.whole })
