-- ===== src/Sysctl/Range.antt =====
-- What the table of redhat_kernel/sysctl_net_ipv4.c keeps true of the sysctls.
use starlink_tcp.Common.{
  ℕ, zero, suc, ◌-◌, ◌^◌, ◌≤◌, ◌≡◌, ◌≢◌, arith, some, none, List, [], ◌∷◌, Bool, true, false,
  if◌then◌else◌, some-injective, subst, refl,
}
use starlink_tcp.Kernel.Net.{Net, tcp_sk_init}
use starlink_tcp.Sysctl.{
  Key, Handlers, entry, store, set_port, write, InRange, leo_rwnd_fast_recovery,
  leo_dynamic_allow_port1, leo_dynamic_allow_port2, leo_dynamic_allow_port3,
  leo_dynamic_allow_port4,
}

-- A slot holds a port.
abbrev pub AllPorts : List ℕ → Type 0
AllPorts [] = Unit
AllPorts (p ∷ ps) = (p ≤ 65535) × AllPorts ps

-- Every value is one that its entry admits, but for the length of the fixed recovery, whose
-- default the table does not admit.
pub record IsRanged (net : Net) : Type 0 where
  pub leo_rwnd_enable : (0 ≤ net.leo_rwnd_enable) × (net.leo_rwnd_enable ≤ 1)
  pub leo_rwnd_period_ms : (1 ≤ net.leo_rwnd_period_ms) × (net.leo_rwnd_period_ms ≤ 2 ^ 32 - 1)
  pub leo_rwnd_offset_ms : (0 ≤ net.leo_rwnd_offset_ms) × (net.leo_rwnd_offset_ms ≤ 2 ^ 32 - 1)
  pub leo_rwnd_pre_ms : (0 ≤ net.leo_rwnd_pre_ms) × (net.leo_rwnd_pre_ms ≤ 2 ^ 32 - 1)
  pub leo_rwnd_outage_ms : (0 ≤ net.leo_rwnd_outage_ms) × (net.leo_rwnd_outage_ms ≤ 2 ^ 32 - 1)
  pub leo_rwnd_min_segs : (1 ≤ net.leo_rwnd_min_segs) × (net.leo_rwnd_min_segs ≤ 2 ^ 32 - 1)
  pub leo_rwnd_debug : (0 ≤ net.leo_rwnd_debug) × (net.leo_rwnd_debug ≤ 1)
  pub leo_rwnd_fast_recovery :
      (1 ≤ net.leo_rwnd_fast_recovery) × (net.leo_rwnd_fast_recovery ≤ 2 ^ 32 - 1)
  pub leo_dynamic_enable : (0 ≤ net.leo_dynamic_enable) × (net.leo_dynamic_enable ≤ 1)
  pub leo_dynamic_sample_ms :
      (1 ≤ net.leo_dynamic_sample_ms) × (net.leo_dynamic_sample_ms ≤ 2 ^ 31 - 1)
  pub leo_dynamic_freeze_guard_ms :
      (1 ≤ net.leo_dynamic_freeze_guard_ms) × (net.leo_dynamic_freeze_guard_ms ≤ 2 ^ 31 - 1)
  pub leo_dynamic_pre_min_ms :
      (1 ≤ net.leo_dynamic_pre_min_ms) × (net.leo_dynamic_pre_min_ms ≤ 2 ^ 31 - 1)
  pub leo_dynamic_pre_max_ms :
      (1 ≤ net.leo_dynamic_pre_max_ms) × (net.leo_dynamic_pre_max_ms ≤ 2 ^ 31 - 1)
  pub leo_dynamic_outage_min_ms :
      (0 ≤ net.leo_dynamic_outage_min_ms) × (net.leo_dynamic_outage_min_ms ≤ 2 ^ 31 - 1)
  pub leo_dynamic_outage_max_ms :
      (0 ≤ net.leo_dynamic_outage_max_ms) × (net.leo_dynamic_outage_max_ms ≤ 2 ^ 31 - 1)
  pub leo_dynamic_outage_guard_ms :
      (0 ≤ net.leo_dynamic_outage_guard_ms) × (net.leo_dynamic_outage_guard_ms ≤ 2 ^ 31 - 1)
  pub leo_dynamic_drain_min_ms :
      (0 ≤ net.leo_dynamic_drain_min_ms) × (net.leo_dynamic_drain_min_ms ≤ 2 ^ 31 - 1)
  pub leo_dynamic_drain_max_ms :
      (0 ≤ net.leo_dynamic_drain_max_ms) × (net.leo_dynamic_drain_max_ms ≤ 2 ^ 31 - 1)
  pub leo_dynamic_fallback_rtt_ms :
      (1 ≤ net.leo_dynamic_fallback_rtt_ms) × (net.leo_dynamic_fallback_rtt_ms ≤ 2 ^ 31 - 1)
  pub leo_dynamic_fallback_rate_mbps :
      (1 ≤ net.leo_dynamic_fallback_rate_mbps) × (net.leo_dynamic_fallback_rate_mbps ≤ 2 ^ 31 - 1)
  pub leo_dynamic_ewma_shift :
      (1 ≤ net.leo_dynamic_ewma_shift) × (net.leo_dynamic_ewma_shift ≤ 2 ^ 32 - 1)
  pub leo_dynamic_prediction_guard_ms :
      (1 ≤ net.leo_dynamic_prediction_guard_ms) × (net.leo_dynamic_prediction_guard_ms ≤ 2 ^ 32 - 1)
  pub leo_dynamic_pred_guard_to_outage :
      (0 ≤ net.leo_dynamic_pred_guard_to_outage) × (net.leo_dynamic_pred_guard_to_outage ≤ 1)
  pub leo_dynamic_recovery_enable :
      (0 ≤ net.leo_dynamic_recovery_enable) × (net.leo_dynamic_recovery_enable ≤ 1)
  pub leo_dynamic_recovery_min_ms :
      (0 ≤ net.leo_dynamic_recovery_min_ms) × (net.leo_dynamic_recovery_min_ms ≤ 2 ^ 31 - 1)
  pub leo_dynamic_recovery_max_ms :
      (0 ≤ net.leo_dynamic_recovery_max_ms) × (net.leo_dynamic_recovery_max_ms ≤ 2 ^ 31 - 1)
  pub ports : AllPorts net.leo_dynamic_allow_ports

-- The defaults are in range (`IsRanged`): each is a value that its entry in the table admits, but
-- for the length of the fixed recovery.
pub tcp_sk_init-IsRanged : (net : Net) → IsRanged (tcp_sk_init net)
tcp_sk_init-IsRanged net = omega arith

IsRanged-ports :
    (net : Net) (ps : List ℕ)
    → IsRanged net
    → AllPorts ps
    → IsRanged (record net { leo_dynamic_allow_ports = ps })
IsRanged-ports net ps h a = ground arith

AllPorts-set_port : (ps : List ℕ) (i v : ℕ) → v ≤ 65535 → AllPorts ps → AllPorts (set_port ps i v)
AllPorts-set_port [] i v h a = tt
AllPorts-set_port (p ∷ ps) zero v h a = (h, a.1)
AllPorts-set_port (p ∷ ps) (suc i) v h a = (a.0, AllPorts-set_port ps i v h a.1)

store-IsRanged :
    (k : Key) (v : ℕ) (net : Net) → InRange k v → IsRanged net → IsRanged (store k v net)
store-IsRanged leo_dynamic_allow_port1 v net r h =
    IsRanged-ports net _ h (AllPorts-set_port net.leo_dynamic_allow_ports 0 v r.1 h.ports)
store-IsRanged leo_dynamic_allow_port2 v net r h =
    IsRanged-ports net _ h (AllPorts-set_port net.leo_dynamic_allow_ports 1 v r.1 h.ports)
store-IsRanged leo_dynamic_allow_port3 v net r h =
    IsRanged-ports net _ h (AllPorts-set_port net.leo_dynamic_allow_ports 2 v r.1 h.ports)
store-IsRanged leo_dynamic_allow_port4 v net r h =
    IsRanged-ports net _ h (AllPorts-set_port net.leo_dynamic_allow_ports 3 v r.1 h.ports)
store-IsRanged _ v net r h = ground arith

accepted : (b : Bool) (x y : Net) → (if b then some x else none) ≡ some y → (b ≡ true) × (x ≡ y)
accepted true x y e = (refl, some-injective _ _ e)
accepted false x y e = cc

-- From sysctls in range (`IsRanged`), after whatever write the handlers accept, every sysctl of
-- the controllers is in the range that its entry admits (but for the length of the fixed recovery,
-- whose default the table does not admit): periods, segment counts and sampling times are
-- positive and ports have 16 bits. The switches are 0 or 1, except for `leo_rwnd_fast_recovery`,
-- which is from 1 to 2 ^ 32 - 1. Of the dynamic controller's other entries, which are for an `int`,
-- no value exceeds 2 ^ 31 - 1, except for `leo_dynamic_ewma_shift` and
-- `leo_dynamic_prediction_guard_ms`, which are from 1 to 2 ^ 32 - 1 like an `unsigned int`.
pub write-IsRanged :
    (hs : Handlers) (k : Key) (v : ℕ) (net : Net) {net' : Net}
    → IsRanged net
    → write hs k v net ≡ some net'
    → IsRanged net'
unfolding write
write-IsRanged hs k v net {net'} h e =
    let a = accepted (hs.accepts (entry k) v) (store k v net) net' e in
    subst IsRanged a.1 (store-IsRanged k v net (hs.accepts_range (entry k) v a.0) h)

-- No accepted write to its entry turns the fast recovery off, though the controller tests the
-- switch.
pub fast_recovery_stays :
    (hs : Handlers) (v : ℕ) (net : Net) {net' : Net}
    → write hs leo_rwnd_fast_recovery v net ≡ some net'
    → net'.leo_rwnd_fast_recovery ≢ 0
unfolding write
fast_recovery_stays hs v net {net'} e =
    let a =
      accepted (hs.accepts (entry leo_rwnd_fast_recovery) v) (store leo_rwnd_fast_recovery v net)
        net' e in
    let r = hs.accepts_range (entry leo_rwnd_fast_recovery) v a.0 in
    subst (λ x. x.leo_rwnd_fast_recovery ≢ 0) a.1 (ground arith)
