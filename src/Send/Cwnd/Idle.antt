-- ===== src/Send/Cwnd/Idle.antt =====
-- How an idle time lowers the congestion window, redhat_kernel/tcp_output.c.
use starlink_tcp.Common.{
  ℕ, zero, suc, ◌+◌, ◌-◌, ◌*◌, ◌/◌, ◌^◌, ◌≤◌, ◌<◌, ◌≡◌, sym, ap, ◌∙◌, arith, ◌&&◌, min, max, ltb,
  if-cases,
}
use starlink_tcp.Common.Int.{pos, ltb_ℤ, sub-pos, ltb_ℤ-sub}
use starlink_tcp.Send.Cwnd.{Cwnd, Host, halve, tcp_cwnd_restart}
use native.Mathlib.Nat.{div-div-eq-div-mul, pow-succ', mul-suc, div-le_self}

-- An idle time of more than `n` timeouts, and at most one more, halves the window `n` times, down to
-- the restart window.
max-halve :
    (fuel rto restart n delta cwnd : ℕ)
    → cwnd ≤ fuel
    → rto * n < delta
    → delta ≤ rto * n + rto
    → max (halve fuel rto restart (pos delta) cwnd) restart ≡ max (cwnd / 2 ^ n) restart
unfolding halve
max-halve zero rto restart n delta cwnd f l u =
    let nothing : cwnd ≡ 0 = omega arith in rw nothing (omega (arith, div-le_self 0 (2 ^ n)))
max-halve (suc fuel) rto restart zero delta cwnd f l u = rw (ltb_ℤ-sub delta rto) (
    if-cases (λ (c : ℕ). max c restart ≡ max (cwnd / 1) restart) (ltb rto delta && ltb restart cwnd)
      (λ e. grind arith) (λ _. omega arith))
max-halve (suc fuel) rto restart (suc n) delta cwnd f l u =
    let deeper : cwnd / 2 / 2 ^ n ≡ cwnd / 2 ^ suc n =
      div-div-eq-div-mul cwnd 2 (2 ^ n) ∙ ap (λ k. cwnd / k) (sym (pow-succ' 2 n)) in
    let enough : rto * suc n ≡ rto * n + rto = mul-suc rto n in
    rw (sub-pos delta rto (omega (arith, enough))) (
      if-cases (λ (c : ℕ). max c restart ≡ max (cwnd / 2 ^ suc n) restart)
        (ltb_ℤ (pos 0) (pos (delta - rto)) && ltb restart cwnd)
        (λ e.
          max-halve fuel rto restart n (delta - rto) (cwnd / 2) (ground arith)
            (omega (arith, enough)) (omega (arith, enough))
          ∙ ap (λ c. max c restart) deeper)
        (λ e.
          let small : cwnd ≤ restart = ground (arith, enough) in
          omega (arith, div-le_self cwnd (2 ^ suc n))))

-- After more than `n` timeouts of idleness, and at most one more, the congestion window is that of
-- before, halved `n` times, but no less than the restart window: the initial window, or the window
-- itself if that is smaller.
pub tcp_cwnd_restart_lem :
    (h : Host) (n delta : ℕ) (tp : Cwnd)
    → h.rto * n < delta
    → delta ≤ h.rto * n + h.rto
    → (tcp_cwnd_restart h (pos delta) tp).snd_cwnd
      ≡ max (tp.snd_cwnd / 2 ^ n) (min (h.tcp_init_cwnd tp) tp.snd_cwnd)
unfolding tcp_cwnd_restart
tcp_cwnd_restart_lem h n delta tp l u =
    max-halve tp.snd_cwnd h.rto (min (h.tcp_init_cwnd tp) tp.snd_cwnd) n delta tp.snd_cwnd
      (omega arith) l u
