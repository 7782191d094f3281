-- ===== src/Leo/Target.antt =====
-- The windows that redhat_kernel/tcp_redhat.c aims at in each phase.
pub mod Ramp
pub mod Edge
pub mod Recovery
use starlink_tcp.Common.{
  ℕ, ◌-◌, ◌/◌, ◌||◌, ◌==◌, min, max, leb, if◌then◌else◌, u32, add32, sub32, mul64,
}
use starlink_tcp.Kernel.Sock.{LeoState}

-- `(u32)(tp->rcv_nxt - st->frozen_pre_start_rcv_nxt)`: the bytes received since the anchor.
abbrev pub received : ℕ → LeoState → ℕ
received rcv_nxt st = sub32 rcv_nxt st.frozen_pre_start_rcv_nxt

pub leo_pre_target : ℕ → LeoState → ℕ → ℕ
leo_pre_target rcv_nxt st elapsed_us =
    if st.pre_started
    then if leb st.frozen_pre_start_wnd st.frozen_min_rwnd
      then st.frozen_min_rwnd
      else if st.frozen_pre_us == 0
      then st.frozen_pre_start_wnd
      else (let delta = st.frozen_pre_start_wnd - st.frozen_min_rwnd in
          let planned = mul64 delta (min elapsed_us st.frozen_pre_us) / st.frozen_pre_us in
          let reduction = min (min planned (received rcv_nxt st)) delta in
          st.frozen_pre_start_wnd - u32 reduction)
    else st.frozen_start_rwnd

pub leo_recovery_target : LeoState → ℕ → ℕ → ℕ
leo_recovery_target st normal_win elapsed_us =
    let end_wnd = max (min normal_win st.frozen_start_rwnd) st.frozen_min_rwnd in
    if st.frozen_recovery_us == 0 || leb end_wnd st.frozen_min_rwnd
    then end_wnd
    else (let delta = end_wnd - st.frozen_min_rwnd in
        let increase = mul64 delta (min elapsed_us st.frozen_recovery_us) / st.frozen_recovery_us in
        add32 st.frozen_min_rwnd (u32 increase))

pub leo_safe_target : ℕ → LeoState → ℕ → ℕ
leo_safe_target rcv_nxt st desired =
    let max_reduction =
      min (received rcv_nxt st) (sub32 st.frozen_pre_start_wnd st.frozen_min_rwnd) in
    max desired (sub32 st.frozen_pre_start_wnd max_reduction)
