-- ===== src/Leo/Freeze/Keep.antt =====
-- How long redhat_kernel/tcp_redhat.c keeps a snapshot.
use starlink_tcp.Common.{ℕ, ◌<◌, ◌≡◌, ◌≢◌, ◌⊎◌, arith, true, false, sub64}
use starlink_tcp.Kernel.Net.{Net}
use starlink_tcp.Kernel.Sock.{Sock, Env, LeoState}
use starlink_tcp.Leo.Freeze.{leo_maybe_freeze}
use starlink_tcp.Leo.Period.{leo_period_id}

-- The snapshot still serves: its recovery has not begun and it is either to have one or belongs to
-- the current period; or its recovery has begun and is not over.
abbrev pub Serves : Net → ℕ → LeoState → Type 0
Serves net now st =
    (st.frozen ≡ true)
    × ((st.recovery_started ≡ false)
          × ((st.frozen_recovery_us ≢ 0) ⊎ (leo_period_id net now ≡ st.frozen_period_id))
        ⊎ (st.recovery_started ≡ true)
          × (sub64 now st.recovery_start_real_us < st.frozen_recovery_us))

-- A snapshot that still serves (`Serves`: its recovery is to come, or is not over, or none is
-- planned and its period is the current one) is kept whole: the call changes no part of the state.
pub leo_maybe_freeze_keeps :
    (env : Env) (net : Net) (sk : Sock) (normal_win now : ℕ)
    → Serves net now sk.leo_state
    → leo_maybe_freeze env net sk normal_win now ≡ sk.leo_state
unfolding leo_maybe_freeze
leo_maybe_freeze_keeps env net sk normal_win now s = ground arith
