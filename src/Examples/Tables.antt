-- ===== src/Examples/Tables.antt =====
-- Runs of the sysctl table of redhat_kernel/sysctl_net_ipv4.c.
use starlink_tcp.Common.{◌≢◌, refl}
use starlink_tcp.Examples.{blank, defaults, handlers}
use starlink_tcp.Sysctl.{write, leo_dynamic_allow_port3, leo_rwnd_fast_recovery, store}
use starlink_tcp.Sysctl.Range.{IsRanged, tcp_sk_init-IsRanged, write-IsRanged, fast_recovery_stays}

write-IsRanged_example : IsRanged (store leo_dynamic_allow_port3 20_077 defaults)
write-IsRanged_example =
    write-IsRanged handlers leo_dynamic_allow_port3 20_077 defaults (tcp_sk_init-IsRanged blank)
      (unfold write in refl)

fast_recovery_stays_example : (store leo_rwnd_fast_recovery 2 defaults).leo_rwnd_fast_recovery ≢ 0
fast_recovery_stays_example =
    fast_recovery_stays handlers 2 defaults {net' = store leo_rwnd_fast_recovery 2 defaults}
      (unfold write in refl)
