-- ===== src/Leo/Freeze/Wellformed.antt =====
-- Freezing and releasing, in redhat_kernel/tcp_redhat.c, keep the controller state well formed.
use starlink_tcp.Common.{ℕ, ◌^◌, ◌<◌, ◌≡◌, arith}
use starlink_tcp.Kernel.Net.{Net}
use starlink_tcp.Kernel.Sock.{Sock, Env, LeoState}
use starlink_tcp.Leo.Freeze.{
  leo_maybe_freeze, leo_freeze_parameters, start_rwnd, planned_rtt_us, planned_rate_Bps,
  release_recovered, release_elapsed,
}
use starlink_tcp.Leo.Inv.{IsValid}
use starlink_tcp.Leo.Measure.{leo_min_rwnd}
use starlink_tcp.Leo.Measure.Fits.{leo_min_rwnd-lt}
use starlink_tcp.Leo.Freeze.Early.{planned_rtt_us-lt, IsMeasured}
use starlink_tcp.Leo.Plan.Bounds.{leo_calc_outage_us-le}
use starlink_tcp.Leo.Plan.Fits.{durations_fit}

release-IsValid :
    (net : Net) (now : ℕ) (st : LeoState)
    → IsValid st
    → IsValid (release_elapsed net now (release_recovered now st))
unfolding release_elapsed release_recovered
release-IsValid net now st v = ground arith

rtt-release :
    (net : Net) (now : ℕ) (st : LeoState)
    → (release_elapsed net now (release_recovered now st)).rtt_us ≡ st.rtt_us
unfolding release_elapsed release_recovered
rtt-release net now st = ground arith

module _ (env : Env) (net : Net) where
  pub leo_freeze_parameters-IsValid :
      (sk : Sock) (normal_win now : ℕ)
      → sk.rcv_rtt_us < 2 ^ 32
      → normal_win < 2 ^ 32
      → IsValid sk.leo_state
      → IsValid (leo_freeze_parameters env net sk normal_win now)
  unfolding leo_freeze_parameters
  leo_freeze_parameters-IsValid sk normal_win now h w v = ground (
    arith,
    planned_rtt_us-lt net sk measured,
    leo_min_rwnd-lt env net sk,
    leo_calc_outage_us-le net (planned_rtt_us net sk) sk.leo_state.rtt_baseline_us,
    durations_fit net (start_rwnd env net sk normal_win) (leo_min_rwnd env net sk)
        (planned_rate_Bps net sk) (planned_rtt_us net sk),
  )
    where
      measured : IsMeasured sk
      measured = record { rtt = v.rtt; raw = h }

  pub leo_maybe_freeze-IsValid :
      (sk : Sock) (normal_win now : ℕ)
      → sk.rcv_rtt_us < 2 ^ 32
      → normal_win < 2 ^ 32
      → IsValid sk.leo_state
      → IsValid (leo_maybe_freeze env net sk normal_win now)
  unfolding leo_maybe_freeze
  leo_maybe_freeze-IsValid sk normal_win now h w v = ground (
    arith,
    release-IsValid net now sk.leo_state v,
    leo_freeze_parameters-IsValid (record sk { leo_state = released }) normal_win now h w
        (release-IsValid net now sk.leo_state v),
  )
    where
      released : LeoState
      released = release_elapsed net now (release_recovered now sk.leo_state)

  pub initialized-leo_maybe_freeze :
      (sk : Sock) (normal_win now : ℕ)
      → (leo_maybe_freeze env net sk normal_win now).initialized ≡ sk.leo_state.initialized
  unfolding leo_maybe_freeze leo_freeze_parameters
  initialized-leo_maybe_freeze sk normal_win now = ground arith
