-- ===== src/Examples.antt =====
-- A socket under the default sysctls of redhat_kernel/tcp_ipv4.c, and what the kernel's other code
-- answers for it: data for the runs below.
mod Controller
mod Schedule
mod Windows
mod Tables
mod Pings
mod Segments
mod Sending
mod Transmits
mod Keys
use starlink_tcp.Common.{ℕ, ◌≡◌, ◌≤◌, true, false, [], arith, ltb, leb, ◌&&◌, ◌+◌, ◌*◌, ◌^◌}
use starlink_tcp.Common.Int.{pos}
use starlink_tcp.Kernel.Net.{Net, tcp_sk_init}
use starlink_tcp.Kernel.Sock.{Sock, Env, LeoState, pre_handover, zeroed}
use starlink_tcp.Sysctl.{Handlers, Entry, low, high}
use starlink_tcp.Window.Select.{Headers}
use starlink_tcp.Window.Space.{Memory}

abbrev pub blank : Net
blank = record {
  shrink_window = 0;
  workaround_signed_windows = 0;
  leo_rwnd_enable = 0;
  leo_rwnd_period_ms = 0;
  leo_rwnd_offset_ms = 0;
  leo_rwnd_pre_ms = 0;
  leo_rwnd_outage_ms = 0;
  leo_rwnd_min_segs = 0;
  leo_rwnd_debug = 0;
  leo_rwnd_recovery_ms = 0;
  leo_rwnd_fast_recovery = 0;
  leo_dynamic_enable = 0;
  leo_dynamic_sample_ms = 0;
  leo_dynamic_freeze_guard_ms = 0;
  leo_dynamic_pre_min_ms = 0;
  leo_dynamic_pre_max_ms = 0;
  leo_dynamic_outage_min_ms = 0;
  leo_dynamic_outage_max_ms = 0;
  leo_dynamic_outage_guard_ms = 0;
  leo_dynamic_drain_min_ms = 0;
  leo_dynamic_drain_max_ms = 0;
  leo_dynamic_fallback_rtt_ms = 0;
  leo_dynamic_fallback_rate_mbps = 0;
  leo_dynamic_ewma_shift = 0;
  leo_dynamic_allow_ports = [];
  leo_dynamic_prediction_guard_ms = 0;
  leo_dynamic_pred_guard_to_outage = 0;
  leo_dynamic_recovery_enable = 0;
  leo_dynamic_recovery_min_ms = 0;
  leo_dynamic_recovery_max_ms = 0;
}

abbrev pub defaults : Net
defaults = tcp_sk_init blank

-- The fixed controller alone, which may not shrink a window.
abbrev pub fixed_only : Net
fixed_only = record defaults { leo_dynamic_enable = 0; shrink_window = 0 }

-- The clock reads this many microseconds; the byte order is the host's.
abbrev pub at_us : ℕ → Env
at_us now = record {
  tcp_mss_default = 536;
  ntohs = λ port. port;
  real_ns = now * 1000;
  mono_ns = now * 1000;
}

-- A snapshot of the handover at 27 s, with its reduction begun: PRE from 26.8 s, the drain from
-- 26.9 s, the outage from 26.965 s.
abbrev pub shrinking : LeoState
shrinking = record zeroed {
  last_sample_us = 26_850_000;
  last_bytes_received = 900_000;
  recv_rate_Bps_ewma = 10_000_000;
  rtt_us = 70_000;
  rtt_baseline_us = 60_000;
  normal_rwnd_ewma = 1_000_000;
  frozen_period_id = 1;
  frozen_rtt_us = 70_000;
  frozen_rtt_half_us = 35_000;
  frozen_recv_rate_Bps = 10_000_000;
  frozen_start_rwnd = 1_000_000;
  frozen_min_rwnd = 8_192;
  frozen_pre_us = 100_000;
  frozen_outage_us = 35_000;
  frozen_drain_us = 35_000;
  frozen_recovery_us = 35_000;
  frozen_prediction_guard_us = 30_000;
  frozen_pre_start_wnd = 1_000_000;
  frozen_pre_start_rcv_nxt = 5_000;
  pre_started = true;
  initialized = true;
  frozen = true;
  current_phase = pre_handover;
}

-- A controlled socket in the middle of that reduction, with 100000 bytes received since it began.
abbrev pub socket : Sock
socket = record {
  inet_sport = 20_075;
  inet_dport = 443;
  rcv_nxt = 105_000;
  bytes_received = 1_000_000;
  rcv_mss = 1_448;
  advmss = 1_460;
  rcv_wscale = 7;
  rcv_rtt_us = 560_000;
  rcv_wnd = 950_016;
  rcv_wup = 55_000;
  window_clamp = 2_000_000;
  rcv_ssthresh = 1_500_000;
  pred_flags = 1;
  quick = 4;
  ack_nomem = false;
  leo_state = shrinking;
}

-- The same socket with ports that are not on the list.
abbrev pub other_socket : Sock
other_socket = record socket { inet_sport = 8_080 }

-- The window in force is 900000 bytes.
abbrev pub headers : Headers
headers = record { tcp_receive_window = λ sk. 900_000; max_tcp_window = 32_767 }

abbrev pub memory : ℕ → Memory
memory free = record {
  tcp_space = pos free;
  tcp_full_space = pos 3_000_000;
  is_mptcp = false;
  mptcp_free = pos 0;
  mptcp_allowed = pos 0;
  under_pressure = false;
  adjusted = λ threshold. threshold;
}

pub within :
    (e : Entry) (v : ℕ) → (leb (low e) v && leb v (high e)) ≡ true → (low e ≤ v) × (v ≤ high e)
within e v h = ground arith

-- Handlers that accept what they document and nothing else.
abbrev pub handlers : Handlers
handlers = record { accepts = λ e v. leb (low e) v && leb v (high e); accepts_range = within }
