-- ===== src/Send/Xmit/Loop.antt =====
-- The loop of `tcp_write_xmit`, redhat_kernel/tcp_output.c. The probe of
-- the path MTU at the start is left out: it does nothing while `icsk_mtup.enabled` is 0.
pub mod Steps
pub mod Portion
pub mod Heads
pub mod Turns
pub mod Runs
pub mod Calls
use starlink_tcp.Common.{
  ℕ, zero, suc, ◌+◌, ◌-◌, ◌*◌, ◌/◌, ◌^◌, List, [], ◌∷◌, Bool, true, false, not, ◌&&◌, ◌||◌, Option,
  none, some, ltb, leb, ◌==◌, min, if◌then◌else◌, add32, sub32, mul32, add64, sub64, mul64,
}
use starlink_tcp.Send.Limits.{
  Order, NoNagle, tcp_cwnd_test, tcp_snd_wnd_test, tcp_nagle_test, tcp_mss_split_point,
  tcp_minshall_update, tcp_tso_segs,
}
use starlink_tcp.Send.Chrono.{Chronos, rwnd_limited, tcp_chrono_start, tcp_chrono_stop}
use starlink_tcp.Send.Buffer.{Buff, Pair, seen, tcp_init_tso_segs}
use starlink_tcp.Send.Cwnd as Window
use starlink_tcp.Send.Xmit.Defer.{Defer, defer_bug, send_now, wait, tcp_tso_should_defer}
use starlink_tcp.Send.Xmit.{
  CaState, recovers, Sk, Host, queued, tcp_mstamp_refresh, tcp_pacing_check, tcp_pacing_timer,
  tso_fragment, tcp_small_queue_check, Sent, gone, kept, tcp_transmit_skb, tcp_event_new_data_sent,
}

-- How one turn of the loop ends: a break, with what limits the sender, a buffer gone with so many
-- segments, or a BUG_ON.
pub data Turn : Type 0 where
  stop : Sk → Bool → Bool → Turn
  went : Sk → ℕ → Turn
  bug : Turn

-- What every call of the loop shares: `push_one`, `nonagle`, `mss_now` and `max_segs`.
pub record Call : Type 0 where
  pub push_one : ℕ
  pub nonagle : NoNagle
  pub mss_now : ℕ
  pub max_segs : ℕ

-- After the label `repair`.
pub advanced : Host → ℕ → Sk → Buff → List Buff → Turn
advanced h mss_now sk skb rest =
    let out = tcp_event_new_data_sent h skb rest sk in
    went (record out { tp = tcp_minshall_update out.tp mss_now (seen skb) }) skb.pcount

-- A buffer that was transmitted leaves the queue.
pub transmitted : Host → ℕ → List Buff → Sent → Turn
transmitted h mss_now rest (gone sk skb) = advanced h mss_now sk skb rest
transmitted h mss_now rest (kept sk skb) = stop (queued sk skb rest) false false

-- From the test of the devices' queues on.
pub passed : Host → ℕ → Sk → Buff → List Buff → Turn
passed h mss_now sk skb rest =
    let checked = tcp_small_queue_check h (queued sk skb rest) skb 0 in
    if checked.1 || skb.end_seq == skb.seq
    then stop checked.0 false false
    else transmitted h mss_now rest (tcp_transmit_skb h checked.0 skb)

-- The buffer cut to `limit` bytes.
pub portioned : Host → ℕ → ℕ → Sk → Buff → List Buff → Turn
portioned h mss_now limit sk skb rest =
    if ltb limit skb.pages.len
    then elim (tso_fragment h limit mss_now sk skb) [
      | none ↦ stop (queued sk skb rest) false false
      | some (grown, p) ↦ passed h mss_now grown p.skb (p.buff ∷ rest)
    ]
    else passed h mss_now sk skb rest

-- TCP_NAGLE_PUSH alone.
abbrev pub push_alone : NoNagle
push_alone = record { nodelay = false; cork = false; push = true }

abbrev pub is_last : List Buff → Bool
is_last [] = true
is_last (b ∷ q) = false

-- The bytes that may go at once, where `cwnd_quota` segments may.
pub limit_of : Host → Call → ℕ → Sk → Buff → List Buff → ℕ
limit_of h c cwnd_quota sk skb rest =
    if ltb 1 skb.pcount && sk.tp.snd_una == sk.tp.snd_up
    then tcp_mss_split_point h.splitter.order sk.tp (seen skb) (is_last rest) c.mss_now
        (min cwnd_quota c.max_segs) c.nonagle
    else c.mss_now

-- From the tests of Nagle on.
pub timed : Host → Call → ℕ → Sk → Buff → List Buff → Turn
timed h c cwnd_quota sk skb rest =
    let go = portioned h c.mss_now (limit_of h c cwnd_quota sk skb rest) sk skb rest in
    if skb.pcount == 1
    then (let nonagle = if is_last rest then c.nonagle else push_alone in
        if tcp_nagle_test h.splitter.order sk.tp (seen skb) c.mss_now nonagle
        then go
        else stop (queued sk skb rest) false false)
    else if c.push_one == 0
    then elim (tcp_tso_should_defer h c.max_segs (queued sk skb rest) skb rest) [
      | defer_bug ↦ bug
      | send_now ↦ go
      | wait cwnd_short rwnd_short ↦ stop (queued sk skb rest) cwnd_short rwnd_short
    ]
    else go

-- The tests of both windows; `push_one` 2 forces a loss probe out.
pub weighed : Host → Call → Sk → Buff → List Buff → Turn
weighed h c sk skb rest =
    let quota = tcp_cwnd_test sk.tp (seen skb) in
    if skb.pcount == 0
    then bug
    else if quota == 0 && not (c.push_one == 2)
    then stop (queued sk skb rest) false false
    else if not (tcp_snd_wnd_test h.splitter.order sk.tp (seen skb) c.mss_now)
    then stop (queued sk skb rest) false true
    else timed h c (if quota == 0 then 1 else quota) sk skb rest

-- One turn of the loop for the head `skb` of the queue.
pub turn : Host → Call → Sk → Buff → List Buff → Turn
turn h c sk skb rest =
    if sk.repair
    then (let stamped = record skb { tstamp = sk.tcp_clock_cache } in
        advanced h c.mss_now (record sk { tcp_wstamp_ns = sk.tcp_clock_cache })
          (tcp_init_tso_segs c.mss_now stamped) rest)
    else if tcp_pacing_check h sk
    then stop (tcp_pacing_timer sk) false false
    else weighed h c sk (tcp_init_tso_segs c.mss_now skb) rest

-- How the loop ends: the socket, what limits it, and the segments that went.
pub data Loop : Type 0 where
  ended : Sk → Bool → Bool → ℕ → Loop
  bug out_of_fuel : Loop

-- After a turn: the loop goes on with `next` unless it sends one buffer only.
pub follow : Call → ℕ → (Sk → ℕ → Loop) → Turn → Loop
follow c sent_pkts next (stop sk cwnd_short rwnd_short) = ended sk cwnd_short rwnd_short sent_pkts
follow c sent_pkts next (went sk n) =
    if c.push_one == 0 then next sk (sent_pkts + n) else ended sk false false (sent_pkts + n)
follow c sent_pkts next bug = bug

-- The head of the queue, if there is one, has its turn.
pub round : Host → Call → Sk → ℕ → (Sk → ℕ → Loop) → List Buff → Loop
round h c sk sent_pkts next [] = ended sk false false sent_pkts
round h c sk sent_pkts next (skb ∷ rest) = follow c sent_pkts next (turn h c sk skb rest)

-- With `fuel` for the turns.
pub xmit_loop : Host → Call → ℕ → Sk → ℕ → Loop
xmit_loop h c zero sk sent_pkts = out_of_fuel
xmit_loop h c (suc fuel) sk sent_pkts = round h c sk sent_pkts (xmit_loop h c fuel) sk.write_queue

-- What `tcp_write_xmit` returns, and whether it calls `tcp_schedule_loss_probe`.
pub data Xmit : Type 0 where
  returned : Sk → Bool → Bool → Xmit
  bug out_of_fuel : Xmit

abbrev pub queues_empty : Sk → Bool
queues_empty sk = is_last sk.write_queue && is_last sk.rtx_queue

pub chronos_of : Host → Bool → Sk → Chronos
chronos_of h is_rwnd_limited sk =
    let now = h.cwnd_host.jiffies in
    if is_rwnd_limited
    then tcp_chrono_start now rwnd_limited sk.cwnd.chronos
    else tcp_chrono_stop now (queues_empty sk) rwnd_limited sk.cwnd.chronos

-- The congestion window, checked with the state that the loop left.
pub validated : Host → Bool → Bool → Bool → Sk → Window.Cwnd
validated h sent is_cwnd_limited is_rwnd_limited sk =
    let cw = record (sk.cwnd) {
      snd_cwnd = sk.tp.snd_cwnd;
      snd_una = sk.tp.snd_una;
      snd_nxt = sk.tp.snd_nxt;
      packets_out = sk.tp.packets_out;
      chronos = chronos_of h is_rwnd_limited sk;
    } in
    let host = record (h.cwnd_host) { queue_empty = is_last sk.write_queue } in
    if sent || is_cwnd_limited then Window.tcp_cwnd_validate host is_cwnd_limited cw else cw

-- After the loop.
pub finished : Host → ℕ → Loop → Xmit
finished h push_one (ended sk is_cwnd_limited is_rwnd_limited sent_pkts) =
    let sent = not (sent_pkts == 0) in
    let full = is_cwnd_limited || leb sk.tp.snd_cwnd sk.tp.in_flight in
    let cw = validated h sent full is_rwnd_limited sk in
    returned
      (record sk {
        cwnd = cw;
        tp = record (sk.tp) { snd_cwnd = cw.snd_cwnd };
        prr_out =
            if sent && h.tcp_in_cwnd_reduction sk.ca_state
            then add32 sk.prr_out sent_pkts
            else sk.prr_out;
      })
      (sent && not (push_one == 2))
      (not sent && sk.tp.packets_out == 0 && not (is_last sk.write_queue))
finished h push_one bug = bug
finished h push_one out_of_fuel = out_of_fuel

abbrev pub call_of : Host → ℕ → NoNagle → ℕ → Call
call_of h mss_now nonagle push_one = record {
  push_one = push_one;
  nonagle = nonagle;
  mss_now = mss_now;
  max_segs = tcp_tso_segs h.pacing mss_now;
}

pub tcp_write_xmit : Host → ℕ → ℕ → NoNagle → ℕ → Sk → Xmit
tcp_write_xmit h fuel mss_now nonagle push_one sk =
    finished h push_one
      (xmit_loop h (call_of h mss_now nonagle push_one) fuel (tcp_mstamp_refresh h sk) 0)
