-- ===== src/Leo/Ports.antt =====
-- `tcp_leo_port_matches` of redhat_kernel/tcp_redhat.c: which sockets are controlled.
use starlink_tcp.Common.{ℕ, Bool, false, true, List, [], ◌∷◌, ◌||◌, ◌==◌, if◌then◌else◌}
use starlink_tcp.Kernel.Net.{Net}
use starlink_tcp.Kernel.Sock.{Sock, Env}

-- The loop over the slots of `sysctl_tcp_leo_dynamic_allow_ports`; 0 is an unused slot.
unfoldable pub any_slot : ℕ → ℕ → List ℕ → Bool
any_slot sport dport [] = false
any_slot sport dport (port ∷ ports) =
    let rest = any_slot sport dport ports in
    if port == 0 then rest else if sport == port || dport == port then true else rest

unfoldable pub tcp_leo_port_matches : Env → Net → Sock → Bool
unfolding any_slot
tcp_leo_port_matches env net sk =
    any_slot (env.ntohs sk.inet_sport) (env.ntohs sk.inet_dport) net.leo_dynamic_allow_ports
