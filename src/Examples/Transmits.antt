-- ===== src/Examples/Transmits.antt =====
-- Runs of the splits and of the transmission in redhat_kernel/tcp_output.c.
use mathlib.Core.List.Perm
use starlink_tcp.Common.{
  ◌-◌, ◌^◌, ◌≡◌, u32, [], ◌∷◌, ◌++◌, none, some, true, false, refl, arith, leb, sub32, take, drop,
  append-nil, inr,
}
use starlink_tcp.Common.Int.{pos}
use starlink_tcp.Send.Limits.{Order, NoNagle}
use starlink_tcp.Send.Buffer.{
  bytes, Buff, Splitter, counted, divided, tcp_fragment_tstamp, tcp_skb_fragment_eor,
  tcp_set_skb_tso_segs,
}
use starlink_tcp.Send.Buffer.Whole.{IsSound, IsCharged, Splits}
use starlink_tcp.Send.Fragment.{
  Counters, rtx, Around, Memory, ok, Done, tcp_fragment, tcp_trim_head, cut, too_big,
}
use starlink_tcp.Send.Fragment.Outcome.{
  IsFresh, IsSplit, tcp_fragment-IsSplit, Keeps, Inserts, total, tcp_fragment-packets,
}
use starlink_tcp.Send.Fragment.Trim.{IsTrimmed, tcp_trim_head-IsTrimmed}
use starlink_tcp.Send.Xmit.{Sk, Host, ca_open}
use starlink_tcp.Send.Xmit.Loop.{tcp_write_xmit}
use starlink_tcp.Send.Xmit.Loop.Calls.{
  IsCaller, SendsInOrder, tcp_write_xmit-SendsInOrder, IsBounded, tcp_write_xmit-IsBounded,
}
use starlink_tcp.Examples.Sending.{window, host}

-- The order of the kernel's headers.
abbrev serial_order : Order
serial_order = record { before = λ a b. leb (2 ^ 31) (sub32 a b) }

-- A split into one fragment each.
abbrev splitter : Splitter
splitter = record {
  order = serial_order;
  skb_split = λ n p. (
    record { len = n; frags = take n (bytes p.frags) ∷ [] },
    record { len = p.len - n; frags = drop n (bytes p.frags) ∷ [] },
  );
}

splitter-Splits : Splits splitter
splitter-Splits = record {
  stays = λ n p h. refl;
  goes = λ n p h. refl;
  head = λ n p h. append-nil (take n (bytes p.frags));
  tail = λ n p h. append-nil (drop n (bytes p.frags));
}

-- Five bytes in two fragments, with PSH, sent as three segments of two bytes.
abbrev skb : Buff
skb = record {
  seq = 1_000;
  end_seq = 1_005;
  pages = record { len = 5; frags = (1 ∷ 2 ∷ 3 ∷ []) ∷ (4 ∷ 5 ∷ []) ∷ [] };
  truesize = 800;
  pcount = 3;
  gso_size = 2;
  tstamp = 7;
  fin = false;
  psh = true;
  eor = true;
  sacked_acked = false;
  sacked_retrans = false;
  lost = true;
  tx_any = true;
  tskey = 1_004;
  txstamp_ack = false;
}

skb-IsSound : IsSound skb
skb-IsSound = record { exact = refl; ends = refl; short = omega arith; word = omega arith }

skb-IsCharged : IsCharged skb
skb-IsCharged = record { charged = omega arith; sized = omega arith }

abbrev fresh : Buff
fresh = record skb {
  pages = record { len = 0; frags = [] };
  truesize = 768;
  pcount = 0;
  tx_any = false;
  tskey = 0;
}

abbrev memory : Memory
memory = record {
  splitter = splitter;
  unclone = λ b. true;
  tcp_stream_alloc_skb = some fresh;
  tcp_rbtree_insert = λ b q. b ∷ q;
  legacy_truesize = 66_000;
}

some-injective_size : (b : Buff) → some fresh ≡ some b → b.truesize ≡ 768
some-injective_size b e = cc

memory-IsFresh : IsFresh memory skb
memory-IsFresh = record { sizes = λ b e. omega (arith, some-injective_size b e) }

memory-Inserts : Inserts memory
memory-Inserts = record { counts = λ b q. refl }

memory-Keeps : Keeps memory
memory-Keeps = record { keeps = λ b q. Perm.refl (b ∷ q) }

abbrev around : Around
around = record { earlier = []; later = [] }

abbrev counters : Counters
counters = record {
  snd_nxt = 1_005;
  packets_out = 3;
  sacked_out = 0;
  retrans_out = 0;
  lost_out = 3;
  reno = false;
  lost_skb_hint = none;
  lost_cnt_hint = pos 0;
  wmem_queued = 800;
  sndbuf = 16_384;
}

tcp_fragment-IsSplit_example :
    IsSplit memory rtx 3 2 around skb counters (tcp_fragment memory rtx 3 2 around skb counters)
tcp_fragment-IsSplit_example =
    tcp_fragment-IsSplit memory rtx 3 2 around skb counters splitter-Splits skb-IsSound
      skb-IsCharged memory-IsFresh memory-Keeps

abbrev split : Done
split = cut memory rtx 3 2 around skb fresh counters

-- Three bytes are two segments and two bytes are one: nothing is lost of the three.
runs : tcp_fragment memory rtx 3 2 around skb counters ≡ ok split
unfolding tcp_fragment too_big
runs = refl

tcp_fragment-packets_example : split.counters.packets_out ≡ u32 (total split.queue)
unfolding cut counted divided tcp_fragment_tstamp tcp_skb_fragment_eor tcp_set_skb_tso_segs
tcp_fragment-packets_example =
    tcp_fragment-packets memory rtx 3 2 around skb counters split memory-Inserts runs refl
      (omega arith) (omega arith) (omega arith) refl

tcp_trim_head-IsTrimmed_example : IsTrimmed 4 skb 800 true (tcp_trim_head memory 4 skb 800)
tcp_trim_head-IsTrimmed_example =
    tcp_trim_head-IsTrimmed memory 4 skb 800 skb-IsSound skb-IsCharged (omega arith)

abbrev xmit_host : Host
xmit_host = record {
  splitter = splitter;
  pacing = record {
    pacing_rate = 1_000_000;
    pacing_shift = 10;
    min_rtt = 70_000;
    tso_rtt_log = 9;
    gso_max_size = 65_536;
    gso_max_segs = 65_535;
    ca_min_tso_segs = none;
    sysctl_min_tso_segs = 2;
  };
  cwnd_host = host;
  tcp_clock_ns = 9_000_000;
  tcp_stream_alloc_skb = λ sk. some fresh;
  tcp_rbtree_insert = λ b q. q ++ b ∷ [];
  unsent = λ sk b. false;
  queue_xmit = λ sk b. pos 0;
  net_xmit_eval = λ err. err;
  tcp_enter_cwr = λ state. state;
  tcp_in_cwnd_reduction = λ state. false;
  tcp_rearm_rto = λ pending. false;
  wmem_alloc = λ sk. 1;
  wmem_again = λ sk. 1;
  needs_internal_pacing = false;
  pacing_none = true;
  limit_output_bytes = 4_194_304;
  tx_delay = 0;
  tso_win_divisor = 3;
  max_tso_deferred_mss = 3;
}

xmit_host-IsCaller : IsCaller xmit_host 2 0
xmit_host-IsCaller = record {
  splits = splitter-Splits;
  order = record { serial = λ a b. refl };
  some_mss = omega arith;
  small_mss = omega arith;
  small_gso = omega arith;
  no_probe = omega arith;
}

-- Two segments may be in flight, and three are queued.
abbrev sock : Sk
sock = record {
  tp = record {
    snd_una = 1_000;
    snd_nxt = 1_000;
    snd_sml = 1_000;
    snd_up = 1_000;
    wnd_end = 9_000;
    packets_out = 0;
    in_flight = 0;
    snd_cwnd = 2;
    wscale_ok = true;
    rcv_wscale = 7;
  };
  write_queue = skb ∷ [];
  rtx_queue = [];
  wire = [];
  tcp_clock_cache = 8_000_000;
  tcp_wstamp_ns = 7_000_000;
  wmem_queued = 800;
  data_segs_out = 0;
  bytes_sent = 0;
  segs_out = 0;
  ca_state = ca_open;
  prr_out = 0;
  highest_sack = none;
  rearms = 0;
  loss_probe = false;
  throttled = false;
  pacing_timer = none;
  repair = false;
  mss_cache = 2;
  snd_wnd = 8_000;
  srtt_us = 560_000;
  cwnd = window;
}

abbrev eager : NoNagle
eager = record { nodelay = true; cork = false; push = false }

tcp_write_xmit-SendsInOrder_example : SendsInOrder sock (tcp_write_xmit xmit_host 10 2 eager 0 sock)
tcp_write_xmit-SendsInOrder_example =
    tcp_write_xmit-SendsInOrder xmit_host 10 2 eager 0 sock xmit_host-IsCaller
      (refl, skb-IsSound, inr refl, tt) refl (omega arith)

tcp_write_xmit-IsBounded_example : IsBounded sock (tcp_write_xmit xmit_host 10 2 eager 0 sock)
tcp_write_xmit-IsBounded_example =
    tcp_write_xmit-IsBounded xmit_host 10 2 eager 0 sock xmit_host-IsCaller
      (refl, skb-IsSound, inr refl, tt) refl (omega arith) refl
