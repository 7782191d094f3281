-- ===== src/Kernel/Sock.antt =====
-- The per-socket state of the controller (`struct tcp_leo_dynamic_state`), and the fields of
-- `struct tcp_sock`, `inet_connection_sock` and `inet_sock` that the controller and the choice of the window read or write.
use starlink_tcp.Common.{ℕ, Bool, false}

-- `enum tcp_leo_phase`
pub data Phase : Type 0 where
  normal pre_handover drain outage recovery : Phase

pub record LeoState : Type 0 where
  pub last_sample_us : ℕ  -- u64
  pub last_bytes_received : ℕ  -- u64
  pub recv_rate_Bps_ewma : ℕ  -- u64
  pub rtt_us : ℕ  -- u32
  pub rtt_baseline_us : ℕ  -- u32
  pub normal_rwnd_ewma : ℕ  -- u32
  pub frozen_period_id : ℕ  -- u64
  pub frozen_rtt_us : ℕ  -- u32
  pub frozen_rtt_half_us : ℕ  -- u32
  pub frozen_recv_rate_Bps : ℕ  -- u64
  pub frozen_start_rwnd : ℕ  -- u32
  pub frozen_min_rwnd : ℕ  -- u32
  pub frozen_pre_us : ℕ  -- u32
  pub frozen_outage_us : ℕ  -- u32
  pub frozen_drain_us : ℕ  -- u32
  pub frozen_recovery_us : ℕ  -- u32
  pub frozen_prediction_guard_us : ℕ  -- u32
  pub frozen_pre_start_wnd : ℕ  -- u32
  pub frozen_pre_start_rcv_nxt : ℕ  -- u32
  pub pre_started : Bool
  pub recovery_started : Bool
  pub recovery_start_real_us : ℕ  -- u64
  pub initialized : Bool
  pub frozen : Bool
  pub current_phase : Phase

-- All bytes 0: what `memset` leaves. `TCP_LEO_NORMAL` is 0.
abbrev pub zeroed : LeoState
zeroed = record {
  last_sample_us = 0;
  last_bytes_received = 0;
  recv_rate_Bps_ewma = 0;
  rtt_us = 0;
  rtt_baseline_us = 0;
  normal_rwnd_ewma = 0;
  frozen_period_id = 0;
  frozen_rtt_us = 0;
  frozen_rtt_half_us = 0;
  frozen_recv_rate_Bps = 0;
  frozen_start_rwnd = 0;
  frozen_min_rwnd = 0;
  frozen_pre_us = 0;
  frozen_outage_us = 0;
  frozen_drain_us = 0;
  frozen_recovery_us = 0;
  frozen_prediction_guard_us = 0;
  frozen_pre_start_wnd = 0;
  frozen_pre_start_rcv_nxt = 0;
  pre_started = false;
  recovery_started = false;
  recovery_start_real_us = 0;
  initialized = false;
  frozen = false;
  current_phase = Phase.normal;
}

pub record Sock : Type 0 where
  pub inet_sport : ℕ  -- __be16
  pub inet_dport : ℕ  -- __be16
  pub rcv_nxt : ℕ  -- u32
  pub bytes_received : ℕ  -- u64
  pub rcv_mss : ℕ  -- u16, of icsk_ack
  pub advmss : ℕ  -- u16
  pub rcv_wscale : ℕ  -- a field of 4 bits
  pub rcv_rtt_us : ℕ  -- u32, of rcv_rtt_est: the estimate times 8
  pub rcv_wnd : ℕ  -- u32
  pub rcv_wup : ℕ  -- u32
  pub window_clamp : ℕ  -- u32
  pub rcv_ssthresh : ℕ  -- u32
  pub pred_flags : ℕ  -- __be32
  pub quick : ℕ  -- u8, of icsk_ack
  pub ack_nomem : Bool  -- the bit ICSK_ACK_NOMEM of icsk_ack.pending
  pub leo_state : LeoState

-- What the rest of the kernel gives to one call: the byte order, the constant `TCP_MSS_DEFAULT`, and
-- the readings of `ktime_get_real_ns` and `ktime_get_ns`, unsigned 64-bit.
pub record Env : Type 0 where
  pub tcp_mss_default : ℕ
  pub ntohs : ℕ → ℕ
  pub real_ns : ℕ
  pub mono_ns : ℕ
