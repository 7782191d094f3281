-- ===== src/Send/Cwnd.antt =====
-- The congestion window of an idle or starved sender, redhat_kernel/tcp_output.c.
pub mod Idle
use starlink_tcp.Common.{
  ℕ, zero, suc, ◌+◌, ◌/◌, ◌^◌, Bool, true, false, not, ◌&&◌, ◌||◌, ltb, leb, ◌==◌, min, max,
  if◌then◌else◌, sub32,
}
use starlink_tcp.Common.Int.{ℤ, pos, ◌-ℤ◌, ltb_ℤ, leb_ℤ, int_of_u32}
use starlink_tcp.Send.Chrono.{Chronos, sndbuf_limited, tcp_chrono_start}

pub record Cwnd : Type 0 where
  pub snd_cwnd : ℕ
  pub snd_ssthresh : ℕ
  pub snd_cwnd_stamp : ℕ
  pub snd_cwnd_used : ℕ
  pub snd_una : ℕ
  pub snd_nxt : ℕ
  pub cwnd_usage_seq : ℕ
  pub packets_out : ℕ
  pub max_packets_out : ℕ
  pub is_cwnd_limited : Bool
  pub chronos : Chronos

-- What the headers, the congestion control and the rest of the socket give: `limited` is
-- `tcp_is_cwnd_limited`, `open_state` is `icsk_ca_state == TCP_CA_Open`, `nospace` a socket whose
-- bit SOCK_NOSPACE is set, `streaming` its state ESTABLISHED or CLOSE_WAIT.
pub record Host : Type 0 where
  pub before : ℕ → ℕ → Bool
  pub tcp_init_cwnd : Cwnd → ℕ
  pub tcp_current_ssthresh : Cwnd → ℕ
  pub ca_restart : Cwnd → Cwnd
  pub limited : Cwnd → Bool
  pub rto : ℕ
  pub jiffies : ℕ
  pub open_state : Bool
  pub has_socket : Bool
  pub nospace : Bool
  pub streaming : Bool
  pub queue_empty : Bool
  pub slow_start_after_idle : Bool
  pub cong_control : Bool

-- `while ((delta -= rto) > 0 && cwnd > restart_cwnd) cwnd >>= 1`; `cwnd` rounds are enough, since
-- each lowers it.
pub halve : ℕ → ℕ → ℕ → ℤ → ℕ → ℕ
halve zero rto restart_cwnd delta cwnd = cwnd
halve (suc fuel) rto restart_cwnd delta cwnd =
    let left = delta -ℤ pos rto in
    let rest = halve fuel rto restart_cwnd left (cwnd / 2) in
    if ltb_ℤ (pos 0) left && ltb restart_cwnd cwnd then rest else cwnd

pub tcp_cwnd_restart : Host → ℤ → Cwnd → Cwnd
unfolding halve
tcp_cwnd_restart h delta tp =
    let sk = h.ca_restart tp in
    let restart_cwnd = min (h.tcp_init_cwnd tp) tp.snd_cwnd in
    record sk {
      snd_ssthresh = h.tcp_current_ssthresh sk;
      snd_cwnd = max (halve tp.snd_cwnd h.rto restart_cwnd delta tp.snd_cwnd) restart_cwnd;
      snd_cwnd_stamp = h.jiffies;
      snd_cwnd_used = 0;
    }

-- `win_used`, at least the initial window.
lower_cwnd : Host → Cwnd → Cwnd
lower_cwnd h tp =
    let win_used = max tp.snd_cwnd_used (h.tcp_init_cwnd tp) in
    if ltb win_used tp.snd_cwnd
    then record tp {
      snd_ssthresh = h.tcp_current_ssthresh tp;
      snd_cwnd = (tp.snd_cwnd + win_used) / 2;
    }
    else tp

tcp_cwnd_application_limited : Host → Cwnd → Cwnd
unfolding lower_cwnd
tcp_cwnd_application_limited h tp =
    if h.open_state && h.has_socket && not h.nospace
    then record (lower_cwnd h tp) { snd_cwnd_used = 0; snd_cwnd_stamp = h.jiffies }
    else record tp { snd_cwnd_stamp = h.jiffies }

note_usage : Host → Bool → Cwnd → Cwnd
note_usage h is_cwnd_limited tp =
    if not (h.before tp.snd_una tp.cwnd_usage_seq)
      || is_cwnd_limited
      || (not tp.is_cwnd_limited && ltb tp.max_packets_out tp.packets_out)
    then record tp {
      is_cwnd_limited = is_cwnd_limited;
      max_packets_out = tp.packets_out;
      cwnd_usage_seq = tp.snd_nxt;
    }
    else tp

-- `(s32)(tcp_jiffies32 - tp->snd_cwnd_stamp) >= icsk_rto`: the s32 is compared as an unsigned
-- number, as `icsk_rto` is one.
starve : Host → Cwnd → Cwnd
unfolding tcp_cwnd_application_limited
starve h tp =
    let used = record tp { snd_cwnd_used = max tp.packets_out tp.snd_cwnd_used } in
    if h.slow_start_after_idle
      && leb h.rto (sub32 h.jiffies tp.snd_cwnd_stamp)
      && not h.cong_control
    then tcp_cwnd_application_limited h used
    else used

note_chrono : Host → Cwnd → Cwnd
note_chrono h tp =
    if h.queue_empty && h.has_socket && h.nospace && h.streaming
    then record tp { chronos = tcp_chrono_start h.jiffies sndbuf_limited tp.chronos }
    else tp

pub tcp_cwnd_validate : Host → Bool → Cwnd → Cwnd
unfolding note_usage starve note_chrono
tcp_cwnd_validate h is_cwnd_limited tp =
    let sk = note_usage h is_cwnd_limited tp in
    if h.limited sk
    then record sk { snd_cwnd_used = 0; snd_cwnd_stamp = h.jiffies }
    else note_chrono h (starve h sk)
