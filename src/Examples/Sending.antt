-- ===== src/Examples/Sending.antt =====
-- Runs of the sender's limits and clocks of redhat_kernel/tcp_output.c.
use starlink_tcp.Common.{
  leb, ℕ, ◌≡◌, ◌+◌, ◌-◌, ◌/◌, ◌^◌, ◌≤◌, some, true, false, refl, arith, ltb, min, max,
}
use starlink_tcp.Common.Int.{pos}
use starlink_tcp.Examples.Segments.{wire, wire-IsWire, run, run-IsPolite, three-IsBpf, ao_key}
use starlink_tcp.Send.Options.{ao}
use starlink_tcp.Send.Options.Established.{tcp_established_options}
use starlink_tcp.Send.Mss.{
  Route, mtu_to_mss, tcp_mtu_to_mss, tcp_mss_to_mtu, lower_search, synced_mss, tcp_sync_mss,
  refresh, tcp_current_mss,
}
use starlink_tcp.Send.Mss.Inverse.{tcp_mtu_to_mss-tcp_mss_to_mtu}
use starlink_tcp.Send.Mss.Fits.{IsBound, tcp_current_mss-fits}
use starlink_tcp.Send.Chrono.{
  busy, rwnd_limited, Chronos, tcp_chrono_start, tcp_chrono_stop, tcp_chrono_set, add_stat,
}
use starlink_tcp.Send.Chrono.Account.{Runs, fresh, wait, start, stop, running, chrono_time}
use starlink_tcp.Send.Delay.{
  Clock, Ack, from_rto_min, delack_max_of, tcp_delack_max, bounded_ato, tcp_send_delayed_ack,
}
use starlink_tcp.Send.Delay.Timely.{IsClock, IsTimely, tcp_send_delayed_ack-IsTimely}
use starlink_tcp.Send.Cwnd.{Cwnd, Host, tcp_cwnd_restart}
use starlink_tcp.Send.Cwnd.Idle.{tcp_cwnd_restart_lem}

abbrev path : Route
path = record {
  tcp_header_len = 32;
  net_header_len = 20;
  ext_hdr_len = 0;
  mss_clamp = 8_960;
  min_snd_mss = 48;
  base_mss = 1_024;
  mtu_probing = 2;
  pmtu_cookie = 9_000;
  mss_cache = 8_948;
  mtup = record {
    enabled = true;
    search_high = pos 9_000;
    search_low = pos 1_076;
    probe_size = 0;
    probe_timestamp = 0;
  };
}

tcp_mtu_to_mss-tcp_mss_to_mtu_example :
    tcp_mtu_to_mss 20 path (tcp_mss_to_mtu 20 path (pos 1_400)) ≡ pos 1_400
tcp_mtu_to_mss-tcp_mss_to_mtu_example =
    tcp_mtu_to_mss-tcp_mss_to_mtu 20 path 1_400 (omega arith) (omega arith) (omega arith)

half_wnd : IsBound (λ mss. mss)
half_wnd = record { half = λ n. n; lowers = λ n. refl; below = λ n. omega arith }

abbrev now : Route × ℕ
now = tcp_current_mss 20 wire (λ mss. mss) (some 1_500) run (ao ao_key) path

-- The MTU of the route falls to 1500.
tcp_current_mss-fits_example :
    now.1
      + (tcp_established_options wire run (ao ao_key)).size
      + 20
      + now.0.ext_hdr_len
      + now.0.net_header_len
    ≤ 1_500
unfolding refresh tcp_sync_mss lower_search synced_mss tcp_mtu_to_mss mtu_to_mss
tcp_current_mss-fits_example =
    tcp_current_mss-fits 20 (λ mss. mss) half_wnd wire 1_500 run (ao ao_key) path wire-IsWire
      (omega arith) run-IsPolite three-IsBpf (omega arith) (omega arith) (omega arith) (omega arith)
      (omega arith)

abbrev booked : Chronos
booked = record {
  chrono_type = busy;
  chrono_start = 112;
  stat_busy = 4;
  stat_rwnd = 5;
  stat_sndbuf = 0;
}

-- Three jiffies of nothing, four busy, five limited by the window, then one more busy.
history : Runs 100 booked 113 3
unfolding tcp_chrono_start tcp_chrono_stop tcp_chrono_set add_stat
history =
    wait 1
      (stop false rwnd_limited (wait 5 (start rwnd_limited (wait 4 (start busy (wait 3 fresh))))))

chrono_time_example : 100 + 3 + 4 + 5 + 0 + running busy (113 - 112) ≡ 113
chrono_time_example = chrono_time 100 history (omega arith)

abbrev pub window : Cwnd
window = record {
  snd_cwnd = 80;
  snd_ssthresh = 100;
  snd_cwnd_stamp = 0;
  snd_cwnd_used = 5;
  snd_una = 1_000;
  snd_nxt = 5_000;
  cwnd_usage_seq = 1_000;
  packets_out = 3;
  max_packets_out = 3;
  is_cwnd_limited = false;
  chronos = record {
    chrono_type = busy;
    chrono_start = 0;
    stat_busy = 0;
    stat_rwnd = 0;
    stat_sndbuf = 0;
  };
}

abbrev pub host : Host
host = record {
  before = λ a b. ltb a b;
  tcp_init_cwnd = λ tp. 10;
  tcp_current_ssthresh = λ tp. tp.snd_cwnd;
  ca_restart = λ tp. tp;
  limited = λ tp. false;
  rto = 200;
  jiffies = 1_000;
  open_state = true;
  has_socket = true;
  nospace = false;
  streaming = true;
  queue_empty = true;
  slow_start_after_idle = true;
  cong_control = false;
}

-- Idle for two timeouts and a half.
tcp_cwnd_restart_lem_example :
    (tcp_cwnd_restart host (pos 500) window).snd_cwnd ≡ max (80 / 2 ^ 2) (min 10 80)
tcp_cwnd_restart_lem_example = tcp_cwnd_restart_lem host 2 500 window (omega arith) (omega arith)

abbrev clock : Clock
clock = record {
  hz = 1_000;
  tcp_delack_min = 40;
  tcp_delack_max_default = 200;
  usecs_to_jiffies = λ us. us / 1_000;
  time_before = λ a b. ltb a b;
  time_before_eq = λ a b. leb a b;
}

clock-IsClock : IsClock clock
clock-IsClock = record { before = λ a b h k. refl; before_eq = λ a b h k. refl }

-- A timer runs for another 150 jiffies; the route allows 100.
abbrev waiting : Ack
waiting = record {
  ato = 300;
  timeout = 5_150;
  pending_sched = true;
  pending_timer = true;
  pending_pushed = false;
  pingpong = false;
  srtt_us = 0;
  delack_max = 200;
  rto_min = some 101;
}

tcp_send_delayed_ack-IsTimely_example :
    (bounded_ato clock waiting ≤ tcp_delack_max waiting)
    × IsTimely (bounded_ato clock waiting) 5_000 waiting (tcp_send_delayed_ack clock 5_000 waiting)
unfolding tcp_delack_max delack_max_of from_rto_min
tcp_send_delayed_ack-IsTimely_example =
    tcp_send_delayed_ack-IsTimely clock 5_000 waiting clock-IsClock (omega arith) (omega arith)
