-- ===== src/Leo/Measure.antt =====
-- What redhat_kernel/tcp_redhat.c measures on a socket: the least window, the receiver's RTT, and
-- the averages that `leo_update_measurements` keeps.
pub mod Fits
pub mod Keep
use starlink_tcp.Common.{
  ℕ, ◌*◌, ◌/◌, ◌^◌, ◌==◌, max, ltb, true, if◌then◌else◌, u32, mul32, mul64, sub64, align32,
}
use starlink_tcp.Kernel.Net.{Net}
use starlink_tcp.Kernel.Sock.{Sock, Env, LeoState, Phase, normal, zeroed}
use starlink_tcp.Leo.Ewma.{leo_ewma_u32, leo_ewma_u64}

-- `rcv_mss`, or `advmss`, or `TCP_MSS_DEFAULT`: the first that is not 0.
abbrev pub segment_size : Env → Sock → ℕ
segment_size env sk =
    if sk.rcv_mss == 0
    then (if sk.advmss == 0 then env.tcp_mss_default else sk.advmss)
    else sk.rcv_mss

unfoldable pub leo_min_rwnd : Env → Net → Sock → ℕ
leo_min_rwnd env net sk =
    align32 (mul32 (max 1 net.leo_rwnd_min_segs) (segment_size env sk)) (2 ^ sk.rcv_wscale)

pub leo_read_receiver_rtt_us : Net → Sock → ℕ
leo_read_receiver_rtt_us net sk =
    let rtt = sk.rcv_rtt_us / 8 in
    if rtt == 0 then u32 (max 1 net.leo_dynamic_fallback_rtt_ms * 1000) else rtt

pub leo_fallback_rate_Bps : Net → ℕ
leo_fallback_rate_Bps net = mul64 (max 1 net.leo_dynamic_fallback_rate_mbps) 1000000 / 8

-- The branch of the first call, after `memset`.
pub first_measurement : Net → Sock → ℕ → ℕ → LeoState
first_measurement net sk normal_win now = record zeroed {
  last_sample_us = now;
  last_bytes_received = sk.bytes_received;
  normal_rwnd_ewma = normal_win;
  rtt_us = leo_read_receiver_rtt_us net sk;
  rtt_baseline_us = leo_read_receiver_rtt_us net sk;
  recv_rate_Bps_ewma = leo_fallback_rate_Bps net;
  current_phase = normal;
  initialized = true;
}

-- The averages are learnt in `TCP_LEO_NORMAL` alone.
pub learn : Net → Sock → ℕ → ℕ → Phase → LeoState → LeoState
learn net sk normal_win now normal st =
    let delta_bytes = sub64 sk.bytes_received st.last_bytes_received in
    let rate =
      if delta_bytes == 0 then 0 else mul64 delta_bytes 1000000 / sub64 now st.last_sample_us in
    let shift = net.leo_dynamic_ewma_shift in
    record st {
      recv_rate_Bps_ewma = leo_ewma_u64 st.recv_rate_Bps_ewma rate shift;
      rtt_baseline_us = leo_ewma_u32 st.rtt_baseline_us (leo_read_receiver_rtt_us net sk) shift;
      normal_rwnd_ewma = leo_ewma_u32 st.normal_rwnd_ewma normal_win shift;
    }
learn net sk normal_win now _ st = st

pub leo_update_measurements : Net → Sock → ℕ → ℕ → Phase → Sock
unfolding first_measurement learn
leo_update_measurements net sk normal_win now phase =
    if st.initialized
    then (if ltb (sub64 now st.last_sample_us) (mul64 (max 1 net.leo_dynamic_sample_ms) 1000)
        then sk
        else record sk {
          leo_state = record (learn net sk normal_win now phase st) {
            rtt_us = leo_read_receiver_rtt_us net sk;
            last_bytes_received = sk.bytes_received;
            last_sample_us = now;
          };
        })
    else record sk { leo_state = first_measurement net sk normal_win now }
  where
    st : LeoState
    st = sk.leo_state
