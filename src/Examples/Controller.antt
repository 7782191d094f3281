-- ===== src/Examples/Controller.antt =====
-- Runs of the dynamic controller of redhat_kernel/tcp_redhat.c: the theorems about a call of
-- `tcp_leo_dynamic_target`, and about the targets, at a socket in the middle of a reduction.
use starlink_tcp.Common.{◌≡◌, ◌≤◌, inl, arith, true, refl, ◌+◌, ◌⊎◌}
use starlink_tcp.Examples.{defaults, at_us, shrinking, socket}
use starlink_tcp.Kernel.Sock.{LeoState}
use starlink_tcp.Leo.Dynamic.{tcp_leo_dynamic_init, tcp_leo_dynamic_target, leo_active}
use starlink_tcp.Leo.Dynamic.Anchor.{SameAnchor, tcp_leo_dynamic_target-SameAnchor}
use starlink_tcp.Leo.Dynamic.Reach.{Reach, Reach-Safe}
use starlink_tcp.Leo.Dynamic.Safe.{Safe, SameSock, tcp_leo_dynamic_target_bounds}
use starlink_tcp.Leo.Dynamic.Wellformed.{IsCall, tcp_leo_dynamic_target-Inv}
use starlink_tcp.Leo.Inv.{Inv}
use starlink_tcp.Leo.Ports.{tcp_leo_port_matches, any_slot}
use starlink_tcp.Leo.Target.{received, leo_pre_target, leo_safe_target}
use starlink_tcp.Leo.Target.Edge.{IsAnchored, targets_safe, leo_pre_target_complete}

is_call : IsCall socket 1_200_000
is_call = omega arith

inv : Inv shrinking
inv = ground arith

on : leo_active (at_us 26_930_000) defaults socket ≡ true
on = unfold leo_active tcp_leo_port_matches any_slot in refl

-- The socket is new, sees one call early in the period, and then another.
once : LeoState
once =
    (tcp_leo_dynamic_target (at_us 26_000_000) defaults
      (record socket { leo_state = (tcp_leo_dynamic_init socket).leo_state }) 1_200_000).0.leo_state

history : Reach once
history =
    Reach.call {st' = once} (Reach.init socket) (at_us 26_000_000) defaults
      (record socket { leo_state = (tcp_leo_dynamic_init socket).leo_state }) 1_200_000 refl
      (omega arith) (unfold once in refl)

then_on : leo_active (at_us 26_930_000) defaults (record socket { leo_state = once }) ≡ true
then_on = unfold leo_active tcp_leo_port_matches any_slot in refl

Reach-Safe_example :
    let (sk', target) =
      tcp_leo_dynamic_target
        (at_us 26_930_000)
        defaults
        (record socket { leo_state = once })
        1_200_000 in
    Safe sk'.leo_state.current_phase sk'.leo_state 105_000 1_200_000 target
Reach-Safe_example =
    Reach-Safe history (at_us 26_930_000) defaults (record socket { leo_state = once }) 1_200_000
      refl (omega arith) then_on

tcp_leo_dynamic_target-Inv_example :
    Inv (tcp_leo_dynamic_target (at_us 26_930_000) defaults socket 1_200_000).0.leo_state
tcp_leo_dynamic_target-Inv_example =
    tcp_leo_dynamic_target-Inv (at_us 26_930_000) defaults socket 1_200_000 is_call inv

tcp_leo_dynamic_target_bounds_example :
    let (sk', target) = tcp_leo_dynamic_target (at_us 26_930_000) defaults socket 1_200_000 in
    (target ≤ 1_200_000)
    × SameSock socket sk'
    × ((leo_active (at_us 26_930_000) defaults socket ≡ true)
        ⊎ (sk' ≡ socket) × (target ≡ 1_200_000))
tcp_leo_dynamic_target_bounds_example =
    tcp_leo_dynamic_target_bounds (at_us 26_930_000) defaults socket 1_200_000

tcp_leo_dynamic_target-SameAnchor_example :
    SameAnchor shrinking
      (tcp_leo_dynamic_target (at_us 26_930_000) defaults socket 1_200_000).0.leo_state
tcp_leo_dynamic_target-SameAnchor_example =
    tcp_leo_dynamic_target-SameAnchor (at_us 26_930_000) defaults socket 1_200_000
      (refl, inl (refl, inl (omega arith))) refl refl (inl refl)

anchored : IsAnchored shrinking
anchored = ground arith

-- Half of the time has passed, but only 100000 bytes have come.
targets_safe_example :
    let target = leo_pre_target 105_000 shrinking 50_000 in
    (8_192 ≤ target) × (target ≤ 1_000_000) × (1_000_000 ≤ target + received 105_000 shrinking)
targets_safe_example =
    targets_safe anchored 105_000 50_000 (leo_pre_target 105_000 shrinking 50_000) (inl refl)

leo_pre_target_complete_example :
    (leo_pre_target 2_005_000 shrinking 100_000 ≡ 8_192)
    × (leo_safe_target 2_005_000 shrinking 8_192 ≡ 8_192)
leo_pre_target_complete_example =
    leo_pre_target_complete 2_005_000 100_000 anchored (omega arith) (omega arith) (omega arith)
