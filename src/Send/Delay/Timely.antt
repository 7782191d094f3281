-- ===== src/Send/Delay/Timely.antt =====
-- A delayed acknowledgement of redhat_kernel/tcp_output.c is not late.
use starlink_tcp.Common.{
  ℕ, ◌+◌, ◌/◌, ◌^◌, ◌≤◌, ◌<◌, ◌≡◌, ◌⊎◌, inl, inr, min, if◌then◌else◌, arith, refl, true, false, ltb,
  leb, if-cases, add64,
}
use starlink_tcp.Send.Delay.{
  Clock, Ack, tcp_delack_max, bounded_ato, Delayed, ack_now, armed, arm, set_timer,
  tcp_send_delayed_ack,
}

-- Far from the wrap of the jiffies, the comparisons are those of numbers.
pub record IsClock (c : Clock) : Type 0 where
  pub before : (a b : ℕ) → a < 2 ^ 63 → b < 2 ^ 63 → c.time_before a b ≡ ltb a b
  pub before_eq : (a b : ℕ) → a < 2 ^ 63 → b < 2 ^ 63 → c.time_before_eq a b ≡ leb a b

-- For a delay of `ato`: at once if a timer runs whose deadline is within a quarter of the delay, and
-- only then; else the timer runs until the end of the delay, or the deadline it had if that comes
-- first.
abbrev pub IsTimely : ℕ → ℕ → Ack → Delayed → Type 0
IsTimely ato jiffies s ack_now = (s.pending_timer ≡ true) × (s.timeout ≤ jiffies + ato / 4)
IsTimely ato jiffies s (armed t) =
    ((s.pending_timer ≡ false) ⊎ (jiffies + ato / 4 < s.timeout))
    × (t.pending_timer ≡ true)
    × (t.timeout ≡ (if s.pending_timer then min s.timeout (jiffies + ato) else jiffies + ato))

bounded_ato-le : (c : Clock) (s : Ack) → bounded_ato c s ≤ tcp_delack_max s
unfolding bounded_ato
bounded_ato-le c s = omega arith

set_timer-IsTimely :
    (c : Clock) (jiffies ato : ℕ) (s : Ack)
    → IsClock c
    → ato ≤ tcp_delack_max s
    → jiffies + tcp_delack_max s < 2 ^ 63
    → s.timeout < 2 ^ 63
    → IsTimely ato jiffies s (set_timer c jiffies ato s)
unfolding set_timer arm
set_timer-IsTimely c jiffies ato s v l h k =
    let P : Delayed → Type 0 = IsTimely ato jiffies s in
    let soon : add64 jiffies (ato / 4) ≡ jiffies + ato / 4 = omega arith in
    let later : add64 jiffies ato ≡ jiffies + ato = omega arith in
    rw
      (
        soon,
        later,
        v.before_eq s.timeout (jiffies + ato / 4) k (omega arith),
        v.before (jiffies + ato) s.timeout (omega arith) k,
      )
      (if-cases P s.pending_timer
        (λ p.
          if-cases P (leb s.timeout (jiffies + ato / 4)) (λ e. (p, ground arith))
            (λ e. (inr (ground arith), refl, ground arith)))
        (λ p. (inl p, refl, ground arith)))

-- The delay of an acknowledgement is at most the limit of the socket and of its route. The
-- acknowledgement is sent at once exactly if a timer already runs whose deadline is no more than a
-- quarter of the delay away; else the timer runs until the end of the delay, or to the deadline it
-- already had, whichever comes first. The times are far from the wrap.
pub tcp_send_delayed_ack-IsTimely :
    (c : Clock) (jiffies : ℕ) (s : Ack)
    → IsClock c
    → jiffies + tcp_delack_max s < 2 ^ 63
    → s.timeout < 2 ^ 63
    → (bounded_ato c s ≤ tcp_delack_max s)
      × IsTimely (bounded_ato c s) jiffies s (tcp_send_delayed_ack c jiffies s)
unfolding tcp_send_delayed_ack
tcp_send_delayed_ack-IsTimely c jiffies s v h k = (
  bounded_ato-le c s,
  set_timer-IsTimely c jiffies (bounded_ato c s) s v (bounded_ato-le c s) h k,
)
