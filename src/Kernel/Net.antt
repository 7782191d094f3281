-- ===== src/Kernel/Net.antt =====
-- The `sysctl_tcp_leo_*` part of `struct netns_ipv4` (redhat_kernel/ipv4.h), with the two other
-- sysctls that the choice of the window reads, and the defaults
-- that `tcp_sk_init` writes (redhat_kernel/tcp_ipv4.c).
use starlink_tcp.Common.{ℕ, List, [], ◌∷◌}

-- The field `sysctl_tcp_x` is `x` here. A field that the source declares `int` holds its 32-bit
-- pattern.
pub record Net : Type 0 where
  pub shrink_window : ℕ  -- u8
  pub workaround_signed_windows : ℕ  -- u8
  pub leo_rwnd_enable : ℕ  -- u32
  pub leo_rwnd_period_ms : ℕ  -- u32
  pub leo_rwnd_offset_ms : ℕ  -- u32
  pub leo_rwnd_pre_ms : ℕ  -- u32
  pub leo_rwnd_outage_ms : ℕ  -- u32
  pub leo_rwnd_min_segs : ℕ  -- u32
  pub leo_rwnd_debug : ℕ  -- u32
  pub leo_rwnd_recovery_ms : ℕ  -- u32
  pub leo_rwnd_fast_recovery : ℕ  -- u32
  pub leo_dynamic_enable : ℕ  -- int
  pub leo_dynamic_sample_ms : ℕ  -- int
  pub leo_dynamic_freeze_guard_ms : ℕ  -- int
  pub leo_dynamic_pre_min_ms : ℕ  -- int
  pub leo_dynamic_pre_max_ms : ℕ  -- int
  pub leo_dynamic_outage_min_ms : ℕ  -- int
  pub leo_dynamic_outage_max_ms : ℕ  -- int
  pub leo_dynamic_outage_guard_ms : ℕ  -- int
  pub leo_dynamic_drain_min_ms : ℕ  -- int
  pub leo_dynamic_drain_max_ms : ℕ  -- int
  pub leo_dynamic_fallback_rtt_ms : ℕ  -- int
  pub leo_dynamic_fallback_rate_mbps : ℕ  -- int
  pub leo_dynamic_ewma_shift : ℕ  -- int
  pub leo_dynamic_allow_ports : List ℕ  -- u32[4]
  pub leo_dynamic_prediction_guard_ms : ℕ  -- int
  pub leo_dynamic_pred_guard_to_outage : ℕ  -- int
  pub leo_dynamic_recovery_enable : ℕ  -- int
  pub leo_dynamic_recovery_min_ms : ℕ  -- int
  pub leo_dynamic_recovery_max_ms : ℕ  -- int

-- The values that `tcp_sk_init` gives these fields.
abbrev pub tcp_sk_init : Net → Net
tcp_sk_init net = record net {
  shrink_window = 1;
  leo_rwnd_enable = 1;
  leo_rwnd_period_ms = 15000;
  leo_rwnd_offset_ms = 12000;
  leo_rwnd_pre_ms = 150;
  leo_rwnd_outage_ms = 100;
  leo_rwnd_min_segs = 4;
  leo_rwnd_debug = 1;
  leo_rwnd_recovery_ms = 0;
  leo_rwnd_fast_recovery = 1;
  leo_dynamic_enable = 1;
  leo_dynamic_sample_ms = 50;
  leo_dynamic_freeze_guard_ms = 50;
  leo_dynamic_pre_min_ms = 20;
  leo_dynamic_pre_max_ms = 300;
  leo_dynamic_outage_min_ms = 10;
  leo_dynamic_outage_max_ms = 80;
  leo_dynamic_outage_guard_ms = 5;
  leo_dynamic_drain_min_ms = 10;
  leo_dynamic_drain_max_ms = 80;
  leo_dynamic_fallback_rtt_ms = 70;
  leo_dynamic_fallback_rate_mbps = 250;
  leo_dynamic_ewma_shift = 3;
  leo_dynamic_allow_ports = 20075 ∷ 20076 ∷ 0 ∷ 0 ∷ [];
  leo_dynamic_prediction_guard_ms = 30;
  leo_dynamic_pred_guard_to_outage = 1;
  leo_dynamic_recovery_enable = 1;
  leo_dynamic_recovery_min_ms = 20;
  leo_dynamic_recovery_max_ms = 80;
}
