-- ===== src/Leo/Measure/Keep.antt =====
-- A measurement of redhat_kernel/tcp_redhat.c keeps the controller state well formed, and touches
-- no frozen parameter.
use starlink_tcp.Common.{ℕ, ◌^◌, ◌<◌, ◌≡◌, arith, true}
use starlink_tcp.Kernel.Net.{Net}
use starlink_tcp.Kernel.Sock.{Sock, LeoState, Phase, normal}
use starlink_tcp.Leo.Inv.{IsValid}
use starlink_tcp.Leo.Measure.{leo_update_measurements, learn}
use starlink_tcp.Leo.Measure.Fits.{leo_read_receiver_rtt_us-lt}

-- The fields that a measurement does not touch.
pub record SamePlan (st st' : LeoState) : Type 0 where
  pub initialized : st'.initialized ≡ st.initialized
  pub frozen : st'.frozen ≡ st.frozen
  pub frozen_min_rwnd : st'.frozen_min_rwnd ≡ st.frozen_min_rwnd
  pub frozen_start_rwnd : st'.frozen_start_rwnd ≡ st.frozen_start_rwnd
  pub frozen_pre_start_wnd : st'.frozen_pre_start_wnd ≡ st.frozen_pre_start_wnd
  pub frozen_pre_start_rcv_nxt : st'.frozen_pre_start_rcv_nxt ≡ st.frozen_pre_start_rcv_nxt
  pub pre_started : st'.pre_started ≡ st.pre_started
  pub frozen_rtt_half_us : st'.frozen_rtt_half_us ≡ st.frozen_rtt_half_us
  pub frozen_pre_us : st'.frozen_pre_us ≡ st.frozen_pre_us
  pub frozen_drain_us : st'.frozen_drain_us ≡ st.frozen_drain_us
  pub frozen_prediction_guard_us : st'.frozen_prediction_guard_us ≡ st.frozen_prediction_guard_us
  pub frozen_outage_us : st'.frozen_outage_us ≡ st.frozen_outage_us
  pub frozen_recovery_us : st'.frozen_recovery_us ≡ st.frozen_recovery_us
  pub frozen_period_id : st'.frozen_period_id ≡ st.frozen_period_id

module _ (net : Net) (sk : Sock) (normal_win now : ℕ) where
  learn-SamePlan :
      (phase : Phase) (st : LeoState) → SamePlan st (learn net sk normal_win now phase st)
  unfolding learn
  learn-SamePlan normal st = ground arith
  learn-SamePlan _ st = ground arith

  pub leo_update_measurements-SamePlan :
      (phase : Phase)
      → sk.leo_state.initialized ≡ true
      → SamePlan sk.leo_state (leo_update_measurements net sk normal_win now phase).leo_state
  unfolding leo_update_measurements
  leo_update_measurements-SamePlan phase i = ground (arith, learn-SamePlan phase sk.leo_state)

  pub leo_update_measurements-IsValid :
      (phase : Phase)
      → sk.rcv_rtt_us < 2 ^ 32
      → IsValid sk.leo_state
      → IsValid (leo_update_measurements net sk normal_win now phase).leo_state
  unfolding leo_update_measurements
  leo_update_measurements-IsValid phase h v =
      ground (arith, learn-SamePlan phase sk.leo_state, leo_read_receiver_rtt_us-lt net sk h)

  pub initialized-leo_update_measurements :
      (phase : Phase)
      → (leo_update_measurements net sk normal_win now phase).leo_state.initialized ≡ true
  unfolding leo_update_measurements
  initialized-leo_update_measurements phase = ground (arith, learn-SamePlan phase sk.leo_state)

  pub leo_update_measurements-sock :
      (phase : Phase)
      → leo_update_measurements net sk normal_win now phase
        ≡ record sk { leo_state = (leo_update_measurements net sk normal_win now phase).leo_state }
  unfolding leo_update_measurements
  leo_update_measurements-sock phase = ground arith
