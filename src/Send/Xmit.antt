-- ===== src/Send/Xmit.antt =====
-- The sender's queues and what one buffer meets on its way out: the steps that `tcp_write_xmit` of
-- redhat_kernel/tcp_output.c takes for it.
pub mod Defer
pub mod Loop
use starlink_tcp.Common.{
  ℕ, ◌+◌, ◌-◌, ◌*◌, ◌/◌, ◌^◌, List, [], ◌∷◌, ◌++◌, Bool, true, false, not, ◌&&◌, ◌||◌, Option, none,
  some, ltb, leb, ◌==◌, min, max, if◌then◌else◌, add32, sub32, mul32, add64, sub64, mul64, u64,
}
use starlink_tcp.Common.Int.{ℤ, pos, negsuc, ltb_ℤ}
use starlink_tcp.Send.Limits.{Order, Sender, Pacing, tcp_minshall_update}
use starlink_tcp.Send.Buffer.{Buff, Pair, Splitter, divided, counted, seen}
use starlink_tcp.Send.Cwnd as Window

-- `enum tcp_ca_state` of the kernel's headers, in its order.
pub data CaState : Type 0 where
  ca_open ca_disorder ca_cwr ca_recovery ca_loss : CaState

abbrev pub recovers : CaState → Bool
recovers ca_recovery = true
recovers ca_loss = true
recovers _ = false

-- The part of `struct tcp_sock` and of `struct sock` that sending changes. `rtx_queue` is the tree
-- of sent buffers in its order; `wire` has the buffers that the IP layer took, the last one last;
-- `rearms` counts the calls of `tcp_rearm_rto`, `loss_probe` tells whether ICSK_TIME_LOSS_PROBE is
-- pending, `throttled` is TSQ_THROTTLED, and `repair` a socket whose send queue is repaired.
pub record Sk : Type 0 where
  pub tp : Sender
  pub write_queue : List Buff
  pub rtx_queue : List Buff
  pub wire : List Buff
  pub tcp_clock_cache : ℕ
  pub tcp_wstamp_ns : ℕ
  pub wmem_queued : ℕ
  pub data_segs_out : ℕ
  pub bytes_sent : ℕ
  pub segs_out : ℕ
  pub ca_state : CaState
  pub prr_out : ℕ
  pub highest_sack : Option ℕ
  pub rearms : ℕ
  pub loss_probe : Bool
  pub throttled : Bool
  pub pacing_timer : Option ℕ
  pub repair : Bool
  pub mss_cache : ℕ
  pub snd_wnd : ℕ
  pub srtt_us : ℕ
  pub cwnd : Window.Cwnd

-- What the kernel's other code answers, for the state it is asked in: memory for a new buffer, a
-- header and a clone that fail (`unsent`), the IP layer, `sk_wmem_alloc` when it is read first and
-- again, and the settings of the socket.
pub record Host : Type 0 where
  pub splitter : Splitter
  pub pacing : Pacing
  pub cwnd_host : Window.Host
  pub tcp_clock_ns : ℕ
  pub tcp_stream_alloc_skb : Sk → Option Buff
  pub tcp_rbtree_insert : Buff → List Buff → List Buff
  pub unsent : Sk → Buff → Bool
  pub queue_xmit : Sk → Buff → ℤ
  pub net_xmit_eval : ℤ → ℤ
  pub tcp_enter_cwr : CaState → CaState
  pub tcp_in_cwnd_reduction : CaState → Bool
  pub tcp_rearm_rto : Bool → Bool
  pub wmem_alloc : Sk → ℕ
  pub wmem_again : Sk → ℕ
  pub needs_internal_pacing : Bool
  pub pacing_none : Bool
  pub limit_output_bytes : ℕ
  pub tx_delay : ℕ
  pub tso_win_divisor : ℕ
  pub max_tso_deferred_mss : ℕ

-- The head of the write queue, with what follows it.
pub queued : Sk → Buff → List Buff → Sk
queued sk skb rest = record sk { write_queue = skb ∷ rest }

pub tcp_mstamp_refresh : Host → Sk → Sk
tcp_mstamp_refresh h sk = record sk { tcp_clock_cache = h.tcp_clock_ns }

pub tcp_pacing_check : Host → Sk → Bool
tcp_pacing_check h sk = h.needs_internal_pacing && ltb sk.tcp_clock_cache sk.tcp_wstamp_ns

-- The timer that a paced sender waits for, unless it runs.
pub tcp_pacing_timer : Sk → Sk
tcp_pacing_timer sk = record sk {
  pacing_timer = elim sk.pacing_timer [ none ↦ some sk.tcp_wstamp_ns | some t ↦ some t ];
}

-- A new buffer takes the end of the first one, which is never sent before.
pub tso_fragment : Host → ℕ → ℕ → Sk → Buff → Option (Sk × Pair)
tso_fragment h len mss_now sk skb = elim (h.tcp_stream_alloc_skb sk) [
  | none ↦ none
  | some fresh ↦ some (
    record sk { wmem_queued = add32 sk.wmem_queued fresh.truesize },
    counted mss_now (divided h.splitter len skb fresh),
  )
]

-- `tcp_rtx_queue_empty_or_single_skb`, of the tree as a list.
abbrev pub empty_or_single : List Buff → Bool
empty_or_single [] = true
empty_or_single (b ∷ []) = true
empty_or_single (b ∷ c ∷ q) = false

pub small_queue_limit : Host → Buff → ℕ → ℕ
small_queue_limit h skb factor =
    let rate = h.pacing.pacing_rate in
    let most = max (mul32 2 skb.truesize) (rate / 2 ^ h.pacing.pacing_shift) in
    let limit = if h.pacing_none then min most h.limit_output_bytes else most in
    add64 (u64 (limit * 2 ^ factor)) (mul64 rate h.tx_delay / 2 ^ 19)

-- Whether the devices hold too much of this socket, with the mark that it leaves.
pub tcp_small_queue_check : Host → Sk → Buff → ℕ → Sk × Bool
tcp_small_queue_check h sk skb factor =
    let limit = small_queue_limit h skb factor in
    let over = ltb limit (h.wmem_alloc sk) && not (empty_or_single sk.rtx_queue) in
    (record sk { throttled = over || sk.throttled }, over && ltb limit (h.wmem_again sk))

-- `~0UL` is no rate.
pub tcp_update_skb_after_send : Host → ℕ → Buff → Sk → Sk
tcp_update_skb_after_send h prior_wstamp skb sk =
    let rate = h.pacing.pacing_rate in
    let len_ns = mul64 skb.pages.len 1_000_000_000 / rate in
    let credit = sub64 sk.tcp_wstamp_ns prior_wstamp in
    let paced =
      not h.pacing_none && not (rate == 2 ^ 64 - 1) && not (rate == 0) && leb 10 sk.data_segs_out in
    record sk {
      tcp_wstamp_ns =
          if paced
          then add64 sk.tcp_wstamp_ns (len_ns - min (len_ns / 2) credit)
          else sk.tcp_wstamp_ns;
    }

-- The counters of segments and bytes in `__tcp_transmit_skb`.
pub accounted : Buff → Sk → Sk
accounted skb sk = record sk {
  data_segs_out =
      if skb.pages.len == 0 then sk.data_segs_out else add32 sk.data_segs_out skb.pcount;
  bytes_sent = add64 sk.bytes_sent skb.pages.len;
  segs_out = add32 sk.segs_out skb.pcount;
}

-- The buffer with its time of sending, and whether it is gone.
pub data Sent : Type 0 where
  gone kept : Sk → Buff → Sent

abbrev pub zero_ℤ : ℤ → Bool
zero_ℤ (pos n) = n == 0
zero_ℤ (negsuc n) = false

-- What the answer `err` of the IP layer means; a positive one changes the state of the
-- congestion control.
pub delivered : Host → ℕ → ℤ → Buff → Sk → Sent
delivered h prior_wstamp err skb sk =
    let cwr = record sk {
      ca_state = if ltb_ℤ (pos 0) err then h.tcp_enter_cwr sk.ca_state else sk.ca_state;
    } in
    if zero_ℤ (if ltb_ℤ (pos 0) err then h.net_xmit_eval err else err)
    then gone
        (tcp_update_skb_after_send h prior_wstamp skb (record cwr { wire = sk.wire ++ skb ∷ [] }))
        skb
    else kept cwr skb

pub tcp_transmit_skb : Host → Sk → Buff → Sent
tcp_transmit_skb h tp oskb =
    let sk = record tp { tcp_wstamp_ns = max tp.tcp_wstamp_ns tp.tcp_clock_cache } in
    let skb = record oskb { tstamp = sk.tcp_wstamp_ns } in
    if h.unsent sk skb
    then kept sk skb
    else (let out = accounted skb sk in delivered h tp.tcp_wstamp_ns (h.queue_xmit out skb) skb out)

-- `skb` leaves the write queue, of which `rest` stays. What is in flight rises with `packets_out`.
pub tcp_event_new_data_sent : Host → Buff → List Buff → Sk → Sk
tcp_event_new_data_sent h skb rest sk =
    let tp = sk.tp in
    let rearm = tp.packets_out == 0 || sk.loss_probe in
    record sk {
      tp = record tp {
        snd_nxt = skb.end_seq;
        packets_out = add32 tp.packets_out skb.pcount;
        in_flight = add32 tp.in_flight skb.pcount;
      };
      write_queue = rest;
      rtx_queue = h.tcp_rbtree_insert skb sk.rtx_queue;
      highest_sack = elim sk.highest_sack [ none ↦ some skb.seq | some s ↦ some s ];
      rearms = if rearm then sk.rearms + 1 else sk.rearms;
      loss_probe = if rearm then h.tcp_rearm_rto sk.loss_probe else sk.loss_probe;
    }
