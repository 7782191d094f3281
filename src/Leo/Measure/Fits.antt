-- ===== src/Leo/Measure/Fits.antt =====
-- What redhat_kernel/tcp_redhat.c reads of a socket fits 32 bits.
use native.Mathlib.Nat.{div-mul-le_self}
use starlink_tcp.Common.{◌^◌, ◌<◌, ◌-◌, arith, max, mul32, add32}
use starlink_tcp.Kernel.Net.{Net}
use starlink_tcp.Kernel.Sock.{Sock, Env}
use starlink_tcp.Leo.Measure.{leo_read_receiver_rtt_us, leo_min_rwnd, segment_size}

pub leo_read_receiver_rtt_us-lt :
    (net : Net) (sk : Sock) → sk.rcv_rtt_us < 2 ^ 32 → leo_read_receiver_rtt_us net sk < 2 ^ 32
unfolding leo_read_receiver_rtt_us
leo_read_receiver_rtt_us-lt net sk h = ground arith

pub leo_min_rwnd-lt : (env : Env) (net : Net) (sk : Sock) → leo_min_rwnd env net sk < 2 ^ 32
unfolding leo_min_rwnd
leo_min_rwnd-lt env net sk = omega (
  arith,
  div-mul-le_self
      (add32 (mul32 (max 1 net.leo_rwnd_min_segs) (segment_size env sk)) (2 ^ sk.rcv_wscale - 1))
      (2 ^ sk.rcv_wscale),
)
