-- ===== src/Leo/Plan/Fits.antt =====
-- The planned durations of redhat_kernel/tcp_redhat.c fit 32 bits, whatever the sysctls say.
use starlink_tcp.Common.{ℕ, ◌^◌, ◌<◌, arith}
use starlink_tcp.Kernel.Net.{Net}
use starlink_tcp.Leo.Plan.{
  leo_calc_pre_us, leo_prediction_guard_us, leo_calc_drain_us, leo_calc_recovery_us,
}

-- A cast to `u32` ends each of them.
pub durations_fit :
    (net : Net) (start least rate rtt : ℕ)
    → (leo_calc_pre_us net start least rate < 2 ^ 32)
      × (leo_calc_drain_us net rtt < 2 ^ 32)
      × (leo_calc_recovery_us net rtt < 2 ^ 32)
      × (leo_prediction_guard_us net < 2 ^ 32)
unfolding leo_calc_pre_us leo_calc_drain_us leo_calc_recovery_us leo_prediction_guard_us
durations_fit net start least rate rtt = ground arith
