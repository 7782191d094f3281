-- ===== src/Leo/Period.antt =====
-- The handover clock of redhat_kernel/tcp_redhat.c: where `now` lies in the predicted period, and
-- the number of that period.
pub mod Clock
use starlink_tcp.Common.{ℕ, ◌/◌, ◌%◌, ◌==◌, if◌then◌else◌, add64, sub64, mul64}
use starlink_tcp.Kernel.Net.{Net}

-- `(u64)sysctl_tcp_leo_rwnd_period_ms * LEO_USEC_PER_MSEC`, and so for the offset.
abbrev pub period_us : Net → ℕ
period_us net = mul64 net.leo_rwnd_period_ms 1000

abbrev pub offset_us : Net → ℕ
offset_us net = mul64 net.leo_rwnd_offset_ms 1000

unfoldable pub leo_period_position_us : Net → ℕ → ℕ
leo_period_position_us net now =
    if period_us net == 0
    then 0
    else sub64 (add64 now (period_us net)) (offset_us net % period_us net) % period_us net

pub leo_period_id : Net → ℕ → ℕ
leo_period_id net now =
    if period_us net == 0
    then 0
    else sub64 (add64 now (period_us net)) (offset_us net % period_us net) / period_us net
