-- ===== src/Leo/Plan.antt =====
-- The durations that redhat_kernel/tcp_redhat.c plans for a handover. All sysctls here are `int`.
pub mod Bounds
pub mod Fits
use starlink_tcp.Common.{
  ℕ, ◌/◌, ◌-◌, ◌==◌, ◌||◌, min, max, ltb, leb, if◌then◌else◌, u32, add64, mul64, u64_of_int, clamp,
}
use starlink_tcp.Kernel.Net.{Net}

-- `if (min_us > max_us) swap(min_us, max_us)`, and then `clamp_t(u64, x, min_us, max_us)`.
abbrev pub clamp_swapped : ℕ → ℕ → ℕ → ℕ
clamp_swapped x lo hi = if ltb hi lo then clamp x hi lo else clamp x lo hi

abbrev pub ms : ℕ → ℕ
ms x = mul64 (u64_of_int x) 1000

abbrev pub pre_min_us : Net → ℕ
pre_min_us net = mul64 (max 1 net.leo_dynamic_pre_min_ms) 1000

abbrev pub pre_max_us : Net → ℕ
pre_max_us net = mul64 (max 1 net.leo_dynamic_pre_max_ms) 1000

unfoldable pub leo_calc_pre_us : Net → ℕ → ℕ → ℕ → ℕ
leo_calc_pre_us net start_rwnd min_rwnd rate_Bps =
    if leb start_rwnd min_rwnd || rate_Bps == 0
    then u32 (pre_min_us net)
    else u32 (
        clamp_swapped (mul64 (start_rwnd - min_rwnd) 1000000 / rate_Bps) (pre_min_us net)
          (pre_max_us net))

unfoldable pub leo_prediction_guard_us : Net → ℕ
leo_prediction_guard_us net = u32 (ms net.leo_dynamic_prediction_guard_ms)

unfoldable pub leo_calc_drain_us : Net → ℕ → ℕ
leo_calc_drain_us net rtt_us =
    u32 (
      clamp_swapped (rtt_us / 2) (ms net.leo_dynamic_drain_min_ms)
        (ms net.leo_dynamic_drain_max_ms))

pub leo_calc_recovery_us : Net → ℕ → ℕ
leo_calc_recovery_us net rtt_us =
    if net.leo_dynamic_recovery_enable == 0
    then 0
    else u32 (
        clamp_swapped (rtt_us / 2) (ms net.leo_dynamic_recovery_min_ms)
          (ms net.leo_dynamic_recovery_max_ms))

-- The sum before the clamp.
pub wanted_outage_us : Net → ℕ → ℕ → ℕ
unfolding leo_prediction_guard_us
wanted_outage_us net rtt_us rtt_min_us =
    let theoretical_min = if ltb rtt_min_us rtt_us then (rtt_us - rtt_min_us) / 2 else 0 in
    let base = add64 theoretical_min (ms net.leo_dynamic_outage_guard_ms) in
    if net.leo_dynamic_pred_guard_to_outage == 0
    then base
    else add64 base (leo_prediction_guard_us net)

pub leo_calc_outage_us : Net → ℕ → ℕ → ℕ
unfolding wanted_outage_us leo_prediction_guard_us
leo_calc_outage_us net rtt_us rtt_min_us =
    let wanted = wanted_outage_us net rtt_us rtt_min_us in
    let a = ms net.leo_dynamic_outage_min_ms in
    let b = ms net.leo_dynamic_outage_max_ms in
    let guard = leo_prediction_guard_us net in
    let clamped =
      if ltb b a then clamp wanted b (add64 a guard) else clamp wanted a (add64 b guard) in
    u32 (min clamped (rtt_us / 2))
