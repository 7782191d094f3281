-- ===== src/Sysctl.antt =====
-- The `tcp_leo_*` entries of `ipv4_net_table` in redhat_kernel/sysctl_net_ipv4.c, and what a write
-- to one of them does.
pub mod Range
use starlink_tcp.Common.{
  ℕ, zero, suc, ◌-◌, ◌^◌, ◌≤◌, ◌≡◌, Bool, true, Option, none, some, List, [], ◌∷◌, if◌then◌else◌,
}
use starlink_tcp.Kernel.Net.{Net}

-- An entry goes by its `procname` without `tcp_`.
pub data Key : Type 0 where
  leo_rwnd_enable leo_rwnd_period_ms leo_rwnd_offset_ms leo_rwnd_pre_ms leo_rwnd_outage_ms
        leo_rwnd_min_segs leo_rwnd_debug leo_rwnd_recovery_ms leo_rwnd_fast_recovery
        leo_dynamic_enable leo_dynamic_sample_ms leo_dynamic_freeze_guard_ms leo_dynamic_pre_min_ms
        leo_dynamic_pre_max_ms leo_dynamic_outage_min_ms leo_dynamic_outage_max_ms
        leo_dynamic_outage_guard_ms leo_dynamic_drain_min_ms leo_dynamic_drain_max_ms
        leo_dynamic_fallback_rtt_ms leo_dynamic_fallback_rate_mbps leo_dynamic_ewma_shift
        leo_dynamic_allow_port1 leo_dynamic_allow_port2 leo_dynamic_allow_port3
        leo_dynamic_allow_port4 leo_dynamic_prediction_guard_ms leo_dynamic_pred_guard_to_outage
        leo_dynamic_recovery_enable leo_dynamic_recovery_min_ms leo_dynamic_recovery_max_ms :
      Key

-- The `proc_handler` of an entry.
pub data Handler : Type 0 where
  proc_dointvec_minmax proc_douintvec_minmax proc_douintvec : Handler

pub record Entry : Type 0 where
  pub handler : Handler
  pub extra1 : Option ℕ
  pub extra2 : Option ℕ

abbrev pub tcp_leo_port_max : ℕ
tcp_leo_port_max = 65535

-- The entries of the dynamic controller.
abbrev pub dynamic_entry : Key → Entry
dynamic_entry leo_dynamic_enable = record {
  handler = proc_dointvec_minmax;
  extra1 = some 0;
  extra2 = some 1;
}
dynamic_entry leo_dynamic_sample_ms = record {
  handler = proc_dointvec_minmax;
  extra1 = some 1;
  extra2 = none;
}
dynamic_entry leo_dynamic_freeze_guard_ms = record {
  handler = proc_dointvec_minmax;
  extra1 = some 1;
  extra2 = none;
}
dynamic_entry leo_dynamic_pre_min_ms = record {
  handler = proc_dointvec_minmax;
  extra1 = some 1;
  extra2 = none;
}
dynamic_entry leo_dynamic_pre_max_ms = record {
  handler = proc_dointvec_minmax;
  extra1 = some 1;
  extra2 = none;
}
dynamic_entry leo_dynamic_outage_min_ms = record {
  handler = proc_dointvec_minmax;
  extra1 = some 0;
  extra2 = none;
}
dynamic_entry leo_dynamic_outage_max_ms = record {
  handler = proc_dointvec_minmax;
  extra1 = some 0;
  extra2 = none;
}
dynamic_entry leo_dynamic_outage_guard_ms = record {
  handler = proc_dointvec_minmax;
  extra1 = some 0;
  extra2 = none;
}
dynamic_entry leo_dynamic_drain_min_ms = record {
  handler = proc_dointvec_minmax;
  extra1 = some 0;
  extra2 = none;
}
dynamic_entry leo_dynamic_drain_max_ms = record {
  handler = proc_dointvec_minmax;
  extra1 = some 0;
  extra2 = none;
}
dynamic_entry leo_dynamic_fallback_rtt_ms = record {
  handler = proc_dointvec_minmax;
  extra1 = some 1;
  extra2 = none;
}
dynamic_entry leo_dynamic_fallback_rate_mbps = record {
  handler = proc_dointvec_minmax;
  extra1 = some 1;
  extra2 = none;
}
dynamic_entry leo_dynamic_ewma_shift = record {
  handler = proc_douintvec_minmax;
  extra1 = some 1;
  extra2 = none;
}
dynamic_entry leo_dynamic_allow_port1 = record {
  handler = proc_douintvec_minmax;
  extra1 = some 0;
  extra2 = some tcp_leo_port_max;
}
dynamic_entry leo_dynamic_allow_port2 = record {
  handler = proc_douintvec_minmax;
  extra1 = some 0;
  extra2 = some tcp_leo_port_max;
}
dynamic_entry leo_dynamic_allow_port3 = record {
  handler = proc_douintvec_minmax;
  extra1 = some 0;
  extra2 = some tcp_leo_port_max;
}
dynamic_entry leo_dynamic_allow_port4 = record {
  handler = proc_dointvec_minmax;
  extra1 = some 0;
  extra2 = some tcp_leo_port_max;
}
dynamic_entry leo_dynamic_prediction_guard_ms = record {
  handler = proc_douintvec_minmax;
  extra1 = some 1;
  extra2 = none;
}
dynamic_entry leo_dynamic_pred_guard_to_outage = record {
  handler = proc_dointvec_minmax;
  extra1 = some 0;
  extra2 = some 1;
}
dynamic_entry leo_dynamic_recovery_enable = record {
  handler = proc_dointvec_minmax;
  extra1 = some 0;
  extra2 = some 1;
}
dynamic_entry leo_dynamic_recovery_min_ms = record {
  handler = proc_dointvec_minmax;
  extra1 = some 0;
  extra2 = none;
}
dynamic_entry leo_dynamic_recovery_max_ms = record {
  handler = proc_dointvec_minmax;
  extra1 = some 0;
  extra2 = none;
}
dynamic_entry k = record { handler = proc_douintvec; extra1 = none; extra2 = none }

-- The entries of the fixed controller, and then those of the dynamic one.
abbrev pub entry : Key → Entry
entry leo_rwnd_enable = record { handler = proc_douintvec_minmax; extra1 = some 0; extra2 = some 1 }
entry leo_rwnd_period_ms = record {
  handler = proc_douintvec_minmax;
  extra1 = some 1;
  extra2 = none;
}
entry leo_rwnd_offset_ms = record { handler = proc_douintvec; extra1 = none; extra2 = none }
entry leo_rwnd_pre_ms = record { handler = proc_douintvec; extra1 = none; extra2 = none }
entry leo_rwnd_outage_ms = record { handler = proc_douintvec; extra1 = none; extra2 = none }
entry leo_rwnd_min_segs = record { handler = proc_douintvec_minmax; extra1 = some 1; extra2 = none }
entry leo_rwnd_debug = record { handler = proc_douintvec_minmax; extra1 = some 0; extra2 = some 1 }
entry leo_rwnd_recovery_ms = record {
  handler = proc_douintvec_minmax;
  extra1 = some 1;
  extra2 = none;
}
entry leo_rwnd_fast_recovery = record {
  handler = proc_douintvec_minmax;
  extra1 = some 1;
  extra2 = none;
}
entry k = dynamic_entry k

-- `*(p + i) = v` in the array of ports; an index out of range is not used.
abbrev pub set_port : List ℕ → ℕ → ℕ → List ℕ
set_port [] i v = []
set_port (x ∷ xs) zero v = v ∷ xs
set_port (x ∷ xs) (suc i) v = x ∷ set_port xs i v

-- The store through the entry's `.data`.
abbrev pub store : Key → ℕ → Net → Net
store leo_rwnd_enable v net = record net { leo_rwnd_enable = v }
store leo_rwnd_period_ms v net = record net { leo_rwnd_period_ms = v }
store leo_rwnd_offset_ms v net = record net { leo_rwnd_offset_ms = v }
store leo_rwnd_pre_ms v net = record net { leo_rwnd_pre_ms = v }
store leo_rwnd_outage_ms v net = record net { leo_rwnd_outage_ms = v }
store leo_rwnd_min_segs v net = record net { leo_rwnd_min_segs = v }
store leo_rwnd_debug v net = record net { leo_rwnd_debug = v }
store leo_rwnd_recovery_ms v net = record net { leo_rwnd_recovery_ms = v }
store leo_rwnd_fast_recovery v net = record net { leo_rwnd_fast_recovery = v }
store leo_dynamic_enable v net = record net { leo_dynamic_enable = v }
store leo_dynamic_sample_ms v net = record net { leo_dynamic_sample_ms = v }
store leo_dynamic_freeze_guard_ms v net = record net { leo_dynamic_freeze_guard_ms = v }
store leo_dynamic_pre_min_ms v net = record net { leo_dynamic_pre_min_ms = v }
store leo_dynamic_pre_max_ms v net = record net { leo_dynamic_pre_max_ms = v }
store leo_dynamic_outage_min_ms v net = record net { leo_dynamic_outage_min_ms = v }
store leo_dynamic_outage_max_ms v net = record net { leo_dynamic_outage_max_ms = v }
store leo_dynamic_outage_guard_ms v net = record net { leo_dynamic_outage_guard_ms = v }
store leo_dynamic_drain_min_ms v net = record net { leo_dynamic_drain_min_ms = v }
store leo_dynamic_drain_max_ms v net = record net { leo_dynamic_drain_max_ms = v }
store leo_dynamic_fallback_rtt_ms v net = record net { leo_dynamic_fallback_rtt_ms = v }
store leo_dynamic_fallback_rate_mbps v net = record net { leo_dynamic_fallback_rate_mbps = v }
store leo_dynamic_ewma_shift v net = record net { leo_dynamic_ewma_shift = v }
store leo_dynamic_allow_port1 v net = record net {
  leo_dynamic_allow_ports = set_port net.leo_dynamic_allow_ports 0 v;
}
store leo_dynamic_allow_port2 v net = record net {
  leo_dynamic_allow_ports = set_port net.leo_dynamic_allow_ports 1 v;
}
store leo_dynamic_allow_port3 v net = record net {
  leo_dynamic_allow_ports = set_port net.leo_dynamic_allow_ports 2 v;
}
store leo_dynamic_allow_port4 v net = record net {
  leo_dynamic_allow_ports = set_port net.leo_dynamic_allow_ports 3 v;
}
store leo_dynamic_prediction_guard_ms v net = record net { leo_dynamic_prediction_guard_ms = v }
store leo_dynamic_pred_guard_to_outage v net = record net { leo_dynamic_pred_guard_to_outage = v }
store leo_dynamic_recovery_enable v net = record net { leo_dynamic_recovery_enable = v }
store leo_dynamic_recovery_min_ms v net = record net { leo_dynamic_recovery_min_ms = v }
store leo_dynamic_recovery_max_ms v net = record net { leo_dynamic_recovery_max_ms = v }

-- The values that the documentation of the handlers admits: those of the entry's type, within the
-- limits if the handler looks at these.
abbrev pub low : Entry → ℕ
low e = elim e.handler [ proc_douintvec ↦ 0 | _ ↦ elim e.extra1 [ some n ↦ n | none ↦ 0 ] ]

abbrev pub high : Entry → ℕ
high e = elim e.handler [
  | proc_douintvec ↦ 2 ^ 32 - 1
  | proc_douintvec_minmax ↦ elim e.extra2 [ some n ↦ n | none ↦ 2 ^ 32 - 1 ]
  | proc_dointvec_minmax ↦ elim e.extra2 [ some n ↦ n | none ↦ 2 ^ 31 - 1 ]
]

abbrev pub InRange : Key → ℕ → Type 0
InRange k v = (low (entry k) ≤ v) × (v ≤ high (entry k))

-- The handlers of the kernel: whether they accept a value, with what they document.
pub record Handlers : Type 0 where
  pub accepts : Entry → ℕ → Bool
  pub accepts_range : (e : Entry) (v : ℕ) → accepts e v ≡ true → (low e ≤ v) × (v ≤ high e)

-- A write: `none` is the error that the handler returns.
unfoldable pub write : Handlers → Key → ℕ → Net → Option Net
write hs k v net = if hs.accepts (entry k) v then some (store k v net) else none
