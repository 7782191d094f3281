-- ===== src/Send/Limits.antt =====
-- How much of the queue may be sent now, redhat_kernel/tcp_output.c: the tests of Nagle, of the
-- congestion window and of the peer's window, and the split of a buffer.
pub mod Split
pub mod Quota
use starlink_tcp.Common.{
  ℕ, ◌-◌, ◌/◌, ◌%◌, ◌^◌, Bool, true, false, not, ◌&&◌, ◌||◌, Option, none, some, ◌==◌, ltb, leb,
  min, max, if◌then◌else◌, add32, sub32, mul32, u32, add64,
}

-- `before` of the kernel's headers, the order of sequence numbers; `after(a, b)` is `before(b, a)`.
pub record Order : Type 0 where
  pub before : ℕ → ℕ → Bool

-- What the tests read of a socket. `wnd_end` is `tcp_wnd_end`, `in_flight` is
-- `tcp_packets_in_flight`.
pub record Sender : Type 0 where
  pub snd_una : ℕ
  pub snd_nxt : ℕ
  pub snd_sml : ℕ
  pub snd_up : ℕ
  pub wnd_end : ℕ
  pub packets_out : ℕ
  pub in_flight : ℕ
  pub snd_cwnd : ℕ
  pub wscale_ok : Bool
  pub rcv_wscale : ℕ

-- A buffer of the queue, with TCPHDR_FIN of its flags.
pub record Skb : Type 0 where
  pub seq : ℕ
  pub end_seq : ℕ
  pub len : ℕ
  pub pcount : ℕ
  pub fin : Bool

-- The bits TCP_NAGLE_* of `nonagle`; `nodelay` is TCP_NAGLE_OFF.
pub record NoNagle : Type 0 where
  pub nodelay : Bool
  pub cork : Bool
  pub push : Bool

abbrev pub is_zero : NoNagle → Bool
is_zero n = not n.nodelay && not n.cork && not n.push

module _ (order : Order) where
  open order use {before}

  tcp_acceptable_seq : Sender → ℕ
  tcp_acceptable_seq tp =
      if not (before tp.wnd_end tp.snd_nxt)
        || (tp.wscale_ok && ltb (sub32 tp.snd_nxt tp.wnd_end) (2 ^ tp.rcv_wscale))
      then tp.snd_nxt
      else tp.wnd_end

  tcp_minshall_check : Sender → Bool
  tcp_minshall_check tp = before tp.snd_una tp.snd_sml && not (before tp.snd_nxt tp.snd_sml)

  pub tcp_nagle_check : Bool → Sender → NoNagle → Bool
  unfolding tcp_minshall_check
  tcp_nagle_check partial tp nonagle =
      partial
      && (nonagle.cork || (is_zero nonagle && not (tp.packets_out == 0) && tcp_minshall_check tp))

  pub tcp_nagle_test : Sender → Skb → ℕ → NoNagle → Bool
  unfolding tcp_nagle_check
  tcp_nagle_test tp skb cur_mss nonagle =
      if nonagle.push
      then true
      else if not (tp.snd_una == tp.snd_up) || skb.fin
      then true
      else not (tcp_nagle_check (ltb skb.len cur_mss) tp nonagle)

  unfoldable pub tcp_snd_wnd_test : Sender → Skb → ℕ → Bool
  tcp_snd_wnd_test tp skb cur_mss =
      not (before tp.wnd_end (if ltb cur_mss skb.len then add32 skb.seq cur_mss else skb.end_seq))

  -- The bytes of `needed` that may go, which less than a segment at the end may not.
  pub whole_segments : Sender → ℕ → ℕ → NoNagle → ℕ
  unfolding tcp_nagle_check
  whole_segments tp needed mss_now nonagle =
      if tcp_nagle_check (not (needed % mss_now == 0)) tp nonagle
      then needed - needed % mss_now
      else needed

  -- `tail`: the buffer is the last of the queue.
  pub tcp_mss_split_point : Sender → Skb → Bool → ℕ → ℕ → NoNagle → ℕ
  unfolding whole_segments
  tcp_mss_split_point tp skb tail mss_now max_segs nonagle =
      let window = sub32 tp.wnd_end skb.seq in
      let max_len = mul32 mss_now max_segs in
      let needed = min skb.len window in
      if (leb max_len window && not tail) || leb max_len needed
      then max_len
      else whole_segments tp needed mss_now nonagle

unfoldable pub tcp_minshall_update : Sender → ℕ → Skb → Sender
tcp_minshall_update tp mss_now skb = record tp {
  snd_sml = if ltb skb.len (mul32 skb.pcount mss_now) then skb.end_seq else tp.snd_sml;
}

unfoldable pub tcp_cwnd_test : Sender → Skb → ℕ
tcp_cwnd_test tp skb =
    if skb.fin && skb.pcount == 1
    then 1
    else if leb tp.snd_cwnd tp.in_flight
    then 0
    else min (max (tp.snd_cwnd / 2) 1) (tp.snd_cwnd - tp.in_flight)

-- What the size of a GSO packet depends on: `min_tso_segs` is that of the congestion control, if it
-- has one, and `min_rtt` is `tcp_min_rtt`.
pub record Pacing : Type 0 where
  pub pacing_rate : ℕ
  pub pacing_shift : ℕ
  pub min_rtt : ℕ
  pub tso_rtt_log : ℕ
  pub gso_max_size : ℕ
  pub gso_max_segs : ℕ
  pub ca_min_tso_segs : Option ℕ
  pub sysctl_min_tso_segs : ℕ

-- BITS_PER_TYPE of an `unsigned int` is 32.
pub tso_bytes : Pacing → ℕ
tso_bytes p =
    let bytes = p.pacing_rate / 2 ^ p.pacing_shift in
    let r = p.min_rtt / 2 ^ p.tso_rtt_log in
    min (if ltb r 32 then add64 bytes (p.gso_max_size / 2 ^ r) else bytes) p.gso_max_size

pub tcp_tso_autosize : Pacing → ℕ → ℕ → ℕ
unfolding tso_bytes
tcp_tso_autosize p mss_now min_tso_segs = max (u32 (tso_bytes p / mss_now)) min_tso_segs

abbrev pub min_tso : Pacing → ℕ
min_tso p = elim p.ca_min_tso_segs [ none ↦ p.sysctl_min_tso_segs | some n ↦ n ]

pub tcp_tso_segs : Pacing → ℕ → ℕ
unfolding tcp_tso_autosize
tcp_tso_segs p mss_now = min (tcp_tso_autosize p mss_now (min_tso p)) p.gso_max_segs
