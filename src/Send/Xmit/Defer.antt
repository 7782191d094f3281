-- ===== src/Send/Xmit/Defer.antt =====
-- `tcp_tso_should_defer` of redhat_kernel/tcp_output.c.
pub mod Decided
use starlink_tcp.Common.{
  ℕ, zero, suc, ◌+◌, ◌-◌, ◌*◌, ◌/◌, ◌^◌, List, [], ◌∷◌, Bool, true, false, not, ◌&&◌, ◌||◌, Option,
  none, some, ltb, leb, ◌==◌, min, if◌then◌else◌, add32, sub32, mul32, add64, sub64, mul64,
}
use starlink_tcp.Send.Limits.{
  Order, NoNagle, tcp_cwnd_test, tcp_snd_wnd_test, tcp_nagle_test, tcp_mss_split_point,
  tcp_minshall_update, tcp_tso_segs,
}
use starlink_tcp.Send.Chrono.{Chronos, rwnd_limited, tcp_chrono_start, tcp_chrono_stop}
use starlink_tcp.Send.Buffer.{Buff, Pair, seen, tcp_init_tso_segs}
use starlink_tcp.Send.Cwnd as Window
use starlink_tcp.Send.Xmit.{
  CaState, recovers, Sk, Host, queued, tcp_mstamp_refresh, tcp_pacing_check, tcp_pacing_timer,
  tso_fragment, tcp_small_queue_check, Sent, gone, kept, tcp_transmit_skb, tcp_event_new_data_sent,
}

-- `defer_bug` is a BUG_ON; a deferral tells whether the congestion window or the peer's window is the
-- reason.
pub data Defer : Type 0 where
  defer_bug send_now : Defer
  wait : Bool → Bool → Defer

-- The `s64` of a u64 is above 0.
abbrev pub positive64 : ℕ → Bool
positive64 n = ltb 0 n && ltb n (2 ^ 63)

-- The end of `tcp_tso_should_defer`, where waiting seems right.
pub limited_by : ℕ → ℕ → Buff → Defer
limited_by cong_win send_win skb =
    if ltb cong_win send_win && leb cong_win skb.pages.len
    then wait true false
    else if not (ltb cong_win send_win) && leb send_win skb.pages.len
    then wait false true
    else if skb.fin || skb.eor
    then send_now
    else wait false false

-- Whether the ACK of the first sent buffer is too far off to wait for.
pub ack_is_late : Sk → Buff → Bool
ack_is_late sk head =
    let srtt_in_ns = mul64 125 sk.srtt_us in
    let how_far = sub64 (add64 head.tstamp srtt_in_ns) sk.tcp_clock_cache in
    positive64 (sub64 how_far (min (srtt_in_ns / 2) 1_000_000))

-- Enough of a window is open; `rest` follows the buffer in the queue.
pub wide_enough : Host → Sk → Buff → List Buff → ℕ → ℕ → Bool
wide_enough h sk skb rest max_segs limit =
    leb (mul32 max_segs sk.mss_cache) limit
    || (elim rest [ [] ↦ false | b ∷ q ↦ leb skb.pages.len limit ])
    || (if h.tso_win_divisor == 0
        then ltb (mul32 h.max_tso_deferred_mss sk.mss_cache) limit
        else leb (min sk.snd_wnd (mul32 sk.tp.snd_cwnd sk.mss_cache) / h.tso_win_divisor) limit)

-- The first sent buffer, if there is one, brings the next ACK.
pub awaited : ℕ → ℕ → Sk → Buff → List Buff → Defer
awaited cong_win send_win sk skb [] = send_now
awaited cong_win send_win sk skb (head ∷ q) =
    if ack_is_late sk head then send_now else limited_by cong_win send_win skb

pub tcp_tso_should_defer : Host → ℕ → Sk → Buff → List Buff → Defer
tcp_tso_should_defer h max_segs sk skb rest =
    let tp = sk.tp in
    let idle = sub64 (sub64 sk.tcp_clock_cache sk.tcp_wstamp_ns) 1_000_000 in
    let send_win = sub32 tp.wnd_end skb.seq in
    let cong_win = mul32 (sub32 tp.snd_cwnd tp.in_flight) sk.mss_cache in
    if recovers sk.ca_state || positive64 idle
    then send_now
    else if leb skb.pcount 1 || leb tp.snd_cwnd tp.in_flight
    then defer_bug
    else if wide_enough h sk skb rest max_segs (min send_win cong_win)
    then send_now
    else awaited cong_win send_win sk skb sk.rtx_queue
