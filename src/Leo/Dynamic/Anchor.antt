-- ===== src/Leo/Dynamic/Anchor.antt =====
-- One reduction of redhat_kernel/tcp_redhat.c has one anchor: successive calls measure their right
-- edges from the same place.
use starlink_tcp.Common.{ℕ, ◌≡◌, ◌⊎◌, inl, inr, arith, true, false, Bool-cases, refl, sym, ◌∙◌, ap}
use starlink_tcp.Kernel.Net.{Net}
use starlink_tcp.Kernel.Sock.{Sock, Env, LeoState, Phase, pre_handover}
use starlink_tcp.Leo.Dynamic.{
  timed, finish, control, leo_now_real_us, leo_now_mono_us, is_pre, tcp_leo_dynamic_target,
  leo_active,
}
use starlink_tcp.Leo.Dynamic.Safe.{target_off}
use starlink_tcp.Leo.Dynamic.Wellformed.{measured}
use starlink_tcp.Leo.Freeze.Keep.{Serves, leo_maybe_freeze_keeps}
use starlink_tcp.Leo.Measure.Keep.{SamePlan, leo_update_measurements-SamePlan}
use starlink_tcp.Leo.Timeline.Wellformed.{leo_phase-SamePlan}

-- The anchor, and the least window that bounds the reduction.
pub record SameAnchor (st st' : LeoState) : Type 0 where
  pub wnd : st'.frozen_pre_start_wnd ≡ st.frozen_pre_start_wnd
  pub rcv_nxt : st'.frozen_pre_start_rcv_nxt ≡ st.frozen_pre_start_rcv_nxt
  pub least : st'.frozen_min_rwnd ≡ st.frozen_min_rwnd
  pub period : st'.frozen_period_id ≡ st.frozen_period_id

-- An anchor that is set stays, unless PRE is entered from another phase.
finish-SameAnchor :
    (old_phase phase : Phase) (elapsed rcv_nxt normal_win : ℕ) (st : LeoState)
    → st.pre_started ≡ true
    → (old_phase ≡ pre_handover) ⊎ (is_pre phase ≡ false)
    → SameAnchor st (finish old_phase phase elapsed rcv_nxt normal_win st).0
unfolding finish
finish-SameAnchor old_phase phase elapsed rcv_nxt normal_win st p h = ground arith

module _ (env : Env) (net : Net) (sk : Sock) (normal_win : ℕ) where
  timed-SamePlan :
      Serves net (leo_now_real_us env) sk.leo_state
      → SamePlan sk.leo_state (timed env net sk normal_win).2
  unfolding timed
  timed-SamePlan s =
      rw (leo_maybe_freeze_keeps env net sk normal_win (leo_now_real_us env) s)
        (leo_phase-SamePlan net (leo_now_real_us env) sk.leo_state)

  measured-SamePlan :
      Serves net (leo_now_real_us env) sk.leo_state
      → sk.leo_state.initialized ≡ true
      → SamePlan sk.leo_state (measured env net sk normal_win)
  measured-SamePlan s i = ground (
    arith,
    timed-SamePlan s,
    leo_update_measurements-SamePlan net (record sk { leo_state = (timed env net sk normal_win).2 })
        normal_win (leo_now_mono_us env) (timed env net sk normal_win).0,
  )

  control-SameAnchor :
      (old_phase : Phase)
      → Serves net (leo_now_real_us env) sk.leo_state
      → sk.leo_state.initialized ≡ true
      → sk.leo_state.pre_started ≡ true
      → (old_phase ≡ pre_handover) ⊎ (is_pre (timed env net sk normal_win).0 ≡ false)
      → SameAnchor sk.leo_state (control env net old_phase sk normal_win).0.leo_state
  unfolding control
  control-SameAnchor old_phase s i p h = ground (
    arith,
    measured-SamePlan s i,
    finish-SameAnchor old_phase (timed env net sk normal_win).0 (timed env net sk normal_win).1
        sk.rcv_nxt normal_win (measured env net sk normal_win),
  )

  target_running :
      leo_active env net sk ≡ true
      → sk.leo_state.initialized ≡ true
      → tcp_leo_dynamic_target env net sk normal_win
        ≡ control env net sk.leo_state.current_phase sk normal_win
  unfolding tcp_leo_dynamic_target
  target_running on i = rw (on, i)

  phase-control :
      (old_phase : Phase)
      → (control env net old_phase sk normal_win).0.leo_state.current_phase
        ≡ (timed env net sk normal_win).0
  unfolding control
  phase-control old_phase = refl

-- A call during a reduction that has its anchor, in an initialised state and under a snapshot that
-- still serves (`Serves`), leaves the anchor, the least window and the number of the period as
-- they were, unless the call enters PRE from another phase: the window shrinks from one right edge
-- for the whole reduction.
pub tcp_leo_dynamic_target-SameAnchor :
    (env : Env) (net : Net) (sk : Sock) (normal_win : ℕ)
    → Serves net (leo_now_real_us env) sk.leo_state
    → sk.leo_state.initialized ≡ true
    → sk.leo_state.pre_started ≡ true
    → (sk.leo_state.current_phase ≡ pre_handover)
      ⊎ (is_pre (tcp_leo_dynamic_target env net sk normal_win).0.leo_state.current_phase ≡ false)
    → SameAnchor sk.leo_state (tcp_leo_dynamic_target env net sk normal_win).0.leo_state
tcp_leo_dynamic_target-SameAnchor env net sk normal_win s i p h =
    elim (Bool-cases (leo_active env net sk)) [
      | inl on ↦ rw (target_running env net sk normal_win on i) (
          control-SameAnchor env net sk normal_win sk.leo_state.current_phase s i p
            (phase_of (rw (target_running env net sk normal_win on i) at h)))
      | inr off ↦ rw (target_off env net sk normal_win off) (ground arith)
    ]
  where
    phase_of :
        (sk.leo_state.current_phase ≡ pre_handover)
          ⊎ (is_pre
                (control env net sk.leo_state.current_phase sk normal_win).0.leo_state.current_phase
              ≡ false)
        → (sk.leo_state.current_phase ≡ pre_handover)
          ⊎ (is_pre (timed env net sk normal_win).0 ≡ false)
    phase_of (inl e) = inl e
    phase_of (inr e) =
        inr (sym (ap is_pre (phase-control env net sk normal_win sk.leo_state.current_phase)) ∙ e)
