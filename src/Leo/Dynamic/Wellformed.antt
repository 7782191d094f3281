-- ===== src/Leo/Dynamic/Wellformed.antt =====
-- A call of `tcp_leo_dynamic_target` (redhat_kernel/tcp_redhat.c) keeps the controller state well
-- formed.
use starlink_tcp.Common.{ℕ, ◌^◌, ◌<◌, ◌≡◌, ◌⊎◌, inl, inr, arith, true, false, Bool-cases, ◌∙◌}
use starlink_tcp.Kernel.Net.{Net}
use starlink_tcp.Kernel.Sock.{Sock, Env, LeoState, Phase, normal}
use starlink_tcp.Leo.Dynamic.{
  timed, finish, start_pre, control, measure_first, leo_active, tcp_leo_dynamic_target,
  tcp_leo_dynamic_init, leo_now_real_us, leo_now_mono_us,
}
use starlink_tcp.Leo.Freeze.{leo_maybe_freeze}
use starlink_tcp.Leo.Freeze.Wellformed.{leo_maybe_freeze-IsValid, initialized-leo_maybe_freeze}
use starlink_tcp.Leo.Inv.{IsValid, Inv}
use starlink_tcp.Leo.Measure.{leo_update_measurements}
use starlink_tcp.Leo.Measure.Keep.{
  leo_update_measurements-SamePlan, leo_update_measurements-IsValid,
  initialized-leo_update_measurements, leo_update_measurements-sock,
}
use starlink_tcp.Leo.Timeline.Order.{is_scheduled}
use starlink_tcp.Leo.Timeline.Wellformed.{
  leo_phase-IsValid, leo_phase-scheduled, initialized-leo_phase,
}

-- What a call takes: 32-bit windows and RTT.
pub record IsCall (sk : Sock) (normal_win : ℕ) : Type 0 where
  pub win : normal_win < 2 ^ 32
  pub rtt : sk.rcv_rtt_us < 2 ^ 32

-- In a reducing phase `start_pre` leaves an anchor.
start_pre-IsValid :
    (old_phase phase : Phase) (rcv_nxt normal_win : ℕ) (st : LeoState)
    → IsValid st
    → IsValid (start_pre old_phase phase rcv_nxt normal_win st)
unfolding start_pre
start_pre-IsValid old_phase phase rcv_nxt normal_win st v = ground arith

start_pre-starts :
    (old_phase phase : Phase) (rcv_nxt normal_win : ℕ) (st : LeoState)
    → is_scheduled phase ≡ true
    → ((start_pre old_phase phase rcv_nxt normal_win st).pre_started ≡ true)
      × ((start_pre old_phase phase rcv_nxt normal_win st).frozen ≡ st.frozen)
unfolding start_pre
start_pre-starts old_phase phase rcv_nxt normal_win st h = ground arith

pub finish-Inv :
    (old_phase phase : Phase) (elapsed rcv_nxt normal_win : ℕ) (st : LeoState)
    → IsValid st
    → (is_scheduled phase ≡ false) ⊎ (st.frozen ≡ true)
    → Inv (finish old_phase phase elapsed rcv_nxt normal_win st).0
unfolding finish
finish-Inv old_phase phase elapsed rcv_nxt normal_win st v f = ground (
  arith,
  start_pre-IsValid old_phase phase rcv_nxt normal_win st v,
  start_pre-starts old_phase phase rcv_nxt normal_win st,
)

-- The state that the second measurement of a call leaves.
abbrev pub measured : Env → Net → Sock → ℕ → LeoState
measured env net sk normal_win =
    let (phase, elapsed, st) = timed env net sk normal_win in
    (leo_update_measurements net (record sk { leo_state = st }) normal_win (leo_now_mono_us env)
      phase).leo_state

module _ (env : Env) (net : Net) {sk : Sock} {normal_win : ℕ} (c : IsCall sk normal_win) where
  timed-IsValid : IsValid sk.leo_state → IsValid (timed env net sk normal_win).2
  unfolding timed
  timed-IsValid v =
      leo_phase-IsValid net _ _
        (leo_maybe_freeze-IsValid env net sk normal_win (leo_now_real_us env) c.rtt c.win v)

  initialized-timed : (timed env net sk normal_win).2.initialized ≡ sk.leo_state.initialized
  unfolding timed
  initialized-timed =
      initialized-leo_phase net _ _
      ∙ initialized-leo_maybe_freeze env net sk normal_win (leo_now_real_us env)

  timed-frozen :
      (is_scheduled (timed env net sk normal_win).0 ≡ false)
      ⊎ ((timed env net sk normal_win).2.frozen ≡ true)
  unfolding timed
  timed-frozen = ground (
    arith,
    leo_phase-scheduled net (leo_now_real_us env)
        (leo_maybe_freeze env net sk normal_win (leo_now_real_us env)),
  )

  pub measured-IsValid : IsValid sk.leo_state → IsValid (measured env net sk normal_win)
  measured-IsValid v =
      leo_update_measurements-IsValid net
        (record sk { leo_state = (timed env net sk normal_win).2 }) normal_win (leo_now_mono_us env)
        (timed env net sk normal_win).0 c.rtt (timed-IsValid v)

  pub measured-frozen :
      sk.leo_state.initialized ≡ true
      → (is_scheduled (timed env net sk normal_win).0 ≡ false)
        ⊎ ((measured env net sk normal_win).frozen ≡ true)
  measured-frozen i = ground (
    arith,
    timed-frozen,
    initialized-timed,
    leo_update_measurements-SamePlan net (record sk { leo_state = (timed env net sk normal_win).2 })
        normal_win (leo_now_mono_us env) (timed env net sk normal_win).0,
  )

  pub control-Inv :
      (old_phase : Phase)
      → IsValid sk.leo_state
      → sk.leo_state.initialized ≡ true
      → Inv (control env net old_phase sk normal_win).0.leo_state
  unfolding control
  control-Inv old_phase v i =
      unfold control in
      finish-Inv old_phase (timed env net sk normal_win).0 (timed env net sk normal_win).1
        sk.rcv_nxt normal_win (measured env net sk normal_win) (measured-IsValid v)
        (measured-frozen i)

  pub measure_first-IsValid :
      IsValid sk.leo_state → IsValid (measure_first env net sk normal_win).leo_state
  unfolding measure_first
  measure_first-IsValid v = ground (
    arith,
    leo_update_measurements-IsValid net sk normal_win (leo_now_mono_us env) normal c.rtt v,
  )

-- After `measure_first` the state is initialised, and the rest of the socket is the same.
pub measure_first_lem :
    (env : Env) (net : Net) (sk : Sock) (normal_win : ℕ)
    → ((measure_first env net sk normal_win).leo_state.initialized ≡ true)
      × (measure_first env net sk normal_win
          ≡ record sk { leo_state = (measure_first env net sk normal_win).leo_state })
unfolding measure_first
measure_first_lem env net sk normal_win = ground (
  arith,
  initialized-leo_update_measurements net sk normal_win (leo_now_mono_us env) normal,
  leo_update_measurements-sock net sk normal_win (leo_now_mono_us env) normal,
)

pub measure_first-IsCall :
    (env : Env) (net : Net) (sk : Sock) (normal_win : ℕ)
    → IsCall sk normal_win
    → IsCall (measure_first env net sk normal_win) normal_win
measure_first-IsCall env net sk normal_win c =
    rw (measure_first_lem env net sk normal_win).1 (record { win = c.win; rtt = c.rtt })

-- A new socket satisfies the invariant.
pub tcp_leo_dynamic_init-Inv : (sk : Sock) → Inv (tcp_leo_dynamic_init sk).leo_state
unfolding tcp_leo_dynamic_init
tcp_leo_dynamic_init-Inv sk = ground arith

-- Every call of `tcp_leo_dynamic_target`, for any sysctls, clocks and socket with a 32-bit window
-- and RTT, keeps the invariant: the windows of the snapshot are in order with the anchor between
-- them, the outage is at most half the RTT, and a reducing phase has a snapshot and an anchor.
pub tcp_leo_dynamic_target-Inv :
    (env : Env) (net : Net) (sk : Sock) (normal_win : ℕ)
    → IsCall sk normal_win
    → Inv sk.leo_state
    → Inv (tcp_leo_dynamic_target env net sk normal_win).0.leo_state
unfolding tcp_leo_dynamic_target
tcp_leo_dynamic_target-Inv env net sk normal_win c inv = elim (Bool-cases (leo_active env net sk)) [
  | inl on ↦ rw on (
      control-Inv env net (measure_first-IsCall env net sk normal_win c) sk.leo_state.current_phase
        (measure_first-IsValid env net c inv.valid) (measure_first_lem env net sk normal_win).0)
  | inr off ↦ rw off inv
]
