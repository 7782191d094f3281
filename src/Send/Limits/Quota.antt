-- ===== src/Send/Limits/Quota.antt =====
-- What redhat_kernel/tcp_output.c lets out at once.
use starlink_tcp.Common.{
  ℕ, ◌+◌, ◌*◌, ◌/◌, ◌^◌, ◌≤◌, ◌<◌, ◌≡◌, arith, false, ◌&&◌, ◌==◌, max, u32, lt-or-le, inl, inr,
}
use starlink_tcp.Send.Limits.{
  Sender, Skb, tcp_cwnd_test, Pacing, tso_bytes, tcp_tso_autosize, min_tso, tcp_tso_segs,
}
use native.Mathlib.Nat.{div-mul-le_self, mul-le-mul_right, mod-le}

-- With the quota sent, no more than the congestion window is in flight, and a window that is not
-- full always lets something out; at least two sends fill an empty window of two or more. A buffer
-- with no more than the FIN is exempt.
pub tcp_cwnd_test-fills :
    (tp : Sender) (skb : Skb)
    → (skb.fin && skb.pcount == 1) ≡ false
    → (tp.in_flight + tcp_cwnd_test tp skb ≤ max tp.in_flight tp.snd_cwnd)
      × (tp.in_flight < tp.snd_cwnd → 0 < tcp_cwnd_test tp skb)
      × (2 ≤ tp.snd_cwnd → tcp_cwnd_test tp skb + tcp_cwnd_test tp skb ≤ tp.snd_cwnd)
unfolding tcp_cwnd_test
tcp_cwnd_test-fills tp skb h = ground arith

tso_bytes-le : (p : Pacing) → tso_bytes p ≤ p.gso_max_size
unfolding tso_bytes
tso_bytes-le p = ground arith

scaled-le : (s a b size m : ℕ) → s ≤ max a b → a * m ≤ size → s * m ≤ max size (b * m)
scaled-le s a b size m h k = elim (lt-or-le a b) [
  | inl l ↦ omega (arith, mul-le-mul_right {m = s} {n = b} m (omega arith))
  | inr l ↦ omega (arith, mul-le-mul_right {m = s} {n = a} m (omega arith))
]

-- A GSO packet has at most the segments that the device allows, and is no longer than the device
-- allows unless the minimum of segments makes it.
pub tcp_tso_segs-fits :
    (p : Pacing) (mss_now : ℕ)
    → (tcp_tso_segs p mss_now ≤ p.gso_max_segs)
      × (tcp_tso_segs p mss_now * mss_now ≤ max p.gso_max_size (min_tso p * mss_now))
unfolding tcp_tso_segs tcp_tso_autosize
tcp_tso_segs-fits p mss_now =
    let segs = u32 (tso_bytes p / mss_now) in
    let fits : segs * mss_now ≤ p.gso_max_size = omega (
      arith,
      mul-le-mul_right {m = segs} {n = tso_bytes p / mss_now} mss_now
          (mod-le (tso_bytes p / mss_now) (2 ^ 32)),
      div-mul-le_self (tso_bytes p) mss_now,
      tso_bytes-le p,
    ) in
    (
      omega arith,
      scaled-le (tcp_tso_segs p mss_now) segs (min_tso p) p.gso_max_size mss_now (omega arith) fits,
    )
