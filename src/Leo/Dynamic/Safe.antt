-- ===== src/Leo/Dynamic/Safe.antt =====
-- The window that `tcp_leo_dynamic_target` (redhat_kernel/tcp_redhat.c) returns, phase by phase.
use starlink_tcp.Common.{
  ℕ, ◌+◌, ◌≤◌, ◌≡◌, ◌⊎◌, inl, inr, arith, min, true, false, Bool-cases, refl, ap, subst,
}
use starlink_tcp.Kernel.Net.{Net}
use starlink_tcp.Kernel.Sock.{
  Sock, Env, LeoState, Phase, normal, pre_handover, drain, outage, recovery,
}
use starlink_tcp.Leo.Dynamic.{
  timed, finish, control, measure_first, leo_active, tcp_leo_dynamic_target,
}
use starlink_tcp.Leo.Dynamic.Wellformed.{
  IsCall, finish-Inv, measured, measured-IsValid, measured-frozen, measure_first-IsCall,
  measure_first-IsValid, measure_first_lem,
}
use starlink_tcp.Leo.Inv.{IsValid, Inv}
use starlink_tcp.Leo.Target.{received}
use starlink_tcp.Leo.Target.Edge.{IsAnchored, targets_safe}
use starlink_tcp.Leo.Target.Recovery.{leo_recovery_target_bounds}
use starlink_tcp.Leo.Timeline.Order.{is_scheduled}

-- While the window is reduced: at least the least window, and with the bytes received since the
-- anchor at least the anchor's window, both up to the normal window.
abbrev pub Reduced : LeoState → ℕ → ℕ → ℕ → Type 0
Reduced st rcv_nxt normal_win target =
    (min normal_win st.frozen_min_rwnd ≤ target)
    × (min normal_win st.frozen_pre_start_wnd ≤ target + received rcv_nxt st)
    × (target ≤ normal_win)

-- What a target satisfies in each phase.
abbrev pub Safe : Phase → LeoState → ℕ → ℕ → ℕ → Type 0
Safe normal st rcv_nxt normal_win target = target ≡ normal_win
Safe recovery st rcv_nxt normal_win target =
    (min normal_win st.frozen_min_rwnd ≤ target) × (target ≤ normal_win)
Safe _ st rcv_nxt normal_win target = Reduced st rcv_nxt normal_win target

anchored : (st : LeoState) → Inv st → is_scheduled st.current_phase ≡ true → IsAnchored st
anchored st inv h = ground arith

finish-Safe :
    (old_phase phase : Phase) (elapsed rcv_nxt normal_win : ℕ) (st : LeoState)
    → Inv (finish old_phase phase elapsed rcv_nxt normal_win st).0
    → let (st', target) = finish old_phase phase elapsed rcv_nxt normal_win st in
      Safe phase st' rcv_nxt normal_win target
unfolding finish
finish-Safe old_phase normal elapsed rcv_nxt normal_win st inv = ground arith
finish-Safe old_phase pre_handover elapsed rcv_nxt normal_win st inv =
    omega (arith, targets_safe (anchored _ inv refl) rcv_nxt elapsed _ (inl refl))
finish-Safe old_phase drain elapsed rcv_nxt normal_win st inv =
    omega (arith, targets_safe (anchored _ inv refl) rcv_nxt elapsed _ (inr refl))
finish-Safe old_phase outage elapsed rcv_nxt normal_win st inv =
    omega (arith, targets_safe (anchored _ inv refl) rcv_nxt elapsed _ (inr refl))
finish-Safe old_phase recovery elapsed rcv_nxt normal_win st inv =
    omega (arith, leo_recovery_target_bounds inv.valid.ramp normal_win elapsed)

control-Safe :
    (env : Env) (net : Net) (sk : Sock) (normal_win : ℕ) (old_phase : Phase)
    → IsCall sk normal_win
    → IsValid sk.leo_state
    → sk.leo_state.initialized ≡ true
    → let (sk', target) = control env net old_phase sk normal_win in
      Safe sk'.leo_state.current_phase sk'.leo_state sk.rcv_nxt normal_win target
unfolding control
control-Safe env net sk normal_win old_phase c v i =
    finish-Safe old_phase (timed env net sk normal_win).0 (timed env net sk normal_win).1 sk.rcv_nxt
      normal_win (measured env net sk normal_win)
      (finish-Inv old_phase (timed env net sk normal_win).0 (timed env net sk normal_win).1
        sk.rcv_nxt normal_win (measured env net sk normal_win) (measured-IsValid env net c v)
        (measured-frozen env net c i))

-- Of the socket only the controller state differs.
abbrev pub SameSock : Sock → Sock → Type 0
SameSock sk sk' = sk' ≡ record sk { leo_state = sk'.leo_state }

module _ (env : Env) (net : Net) (sk : Sock) (normal_win : ℕ) where
  first : Sock
  first = measure_first env net sk normal_win

  first_lem : SameSock sk first
  unfolding first
  first_lem = (measure_first_lem env net sk normal_win).1

  target_on :
      leo_active env net sk ≡ true
      → tcp_leo_dynamic_target env net sk normal_win
        ≡ control env net sk.leo_state.current_phase first normal_win
  unfolding tcp_leo_dynamic_target first
  target_on on = rw on

  pub target_off :
      leo_active env net sk ≡ false
      → tcp_leo_dynamic_target env net sk normal_win ≡ (sk, normal_win)
  unfolding tcp_leo_dynamic_target
  target_off off = rw off

-- Where the controller is on, a call with a 32-bit window and RTT from a state with the invariant
-- returns, in NORMAL, the normal window; in RECOVERY, at least the least window of the snapshot; and
-- in PRE, DRAIN and OUTAGE at least that, with a right edge no further back than the anchor's: the
-- target and the bytes received since make up the window at the anchor. The two lower bounds hold up
-- to the normal window, which no target exceeds.
pub tcp_leo_dynamic_target-Safe :
    (env : Env) (net : Net) (sk : Sock) (normal_win : ℕ)
    → IsCall sk normal_win
    → Inv sk.leo_state
    → leo_active env net sk ≡ true
    → let (sk', target) = tcp_leo_dynamic_target env net sk normal_win in
      Safe sk'.leo_state.current_phase sk'.leo_state sk.rcv_nxt normal_win target
tcp_leo_dynamic_target-Safe env net sk normal_win c inv on =
    rw (target_on env net sk normal_win on)
      (subst (λ n. Safe st.current_phase st n normal_win out.1) edge safe)
  where
    out : Sock × ℕ
    out = control env net sk.leo_state.current_phase (first env net sk normal_win) normal_win

    st : LeoState
    st = out.0.leo_state

    edge : (first env net sk normal_win).rcv_nxt ≡ sk.rcv_nxt
    edge = ap (λ (s : Sock). s.rcv_nxt) (first_lem env net sk normal_win)

    safe : Safe st.current_phase st (first env net sk normal_win).rcv_nxt normal_win out.1
    safe =
        unfold first in
        control-Safe env net (measure_first env net sk normal_win) normal_win
          sk.leo_state.current_phase (measure_first-IsCall env net sk normal_win c)
          (measure_first-IsValid env net c inv.valid) (measure_first_lem env net sk normal_win).0

SameSock-trans : (a b c : Sock) → SameSock a b → SameSock b c → SameSock a c
SameSock-trans a b c p q = ground arith

control-le :
    (env : Env) (net : Net) (old_phase : Phase) (sk : Sock) (normal_win : ℕ)
    → let (sk', target) = control env net old_phase sk normal_win in
      (target ≤ normal_win) × SameSock sk sk'
unfolding control
control-le env net old_phase sk normal_win = (omega arith, refl)

-- On every path the target is at most the normal window, and of the socket only the controller
-- state changes; where the controller is off for the socket, by a sysctl or its ports, that does
-- not change either and the target is the normal window.
pub tcp_leo_dynamic_target_bounds :
    (env : Env) (net : Net) (sk : Sock) (normal_win : ℕ)
    → let (sk', target) = tcp_leo_dynamic_target env net sk normal_win in
      (target ≤ normal_win)
      × SameSock sk sk'
      × ((leo_active env net sk ≡ true) ⊎ (sk' ≡ sk) × (target ≡ normal_win))
tcp_leo_dynamic_target_bounds env net sk normal_win = elim (Bool-cases (leo_active env net sk)) [
  | inl on ↦
      rw (target_on env net sk normal_win on)
        (ran.0, SameSock-trans sk start _ (first_lem env net sk normal_win) ran.1, inl on)
  | inr off ↦ rw (target_off env net sk normal_win off) (omega arith, refl, inr (refl, refl))
]
  where
    start : Sock
    start = first env net sk normal_win

    ran :
        ((control env net sk.leo_state.current_phase start normal_win).1 ≤ normal_win)
        × SameSock start (control env net sk.leo_state.current_phase start normal_win).0
    ran = control-le env net sk.leo_state.current_phase start normal_win
