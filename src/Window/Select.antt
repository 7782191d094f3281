-- ===== src/Window/Select.antt =====
-- `tcp_select_window` of redhat_kernel/tcp_output.c: the window field of an outgoing segment.
pub mod Keep
use starlink_tcp.Common.{
  ℕ, ◌*◌, ◌/◌, ◌%◌, ◌^◌, Bool, true, false, not, ◌&&◌, ◌||◌, ◌==◌, min, ltb, if◌then◌else◌, List,
  [], ◌∷◌, align32,
}
use starlink_tcp.Kernel.Net.{Net}
use starlink_tcp.Kernel.Sock.{Sock, Env}
use starlink_tcp.Leo.Dynamic.{tcp_leo_dynamic_target}
use starlink_tcp.Window.Fixed.{tcp_leo_rwnd_clamp}
use starlink_tcp.Window.Space.{Memory, tcp_select_window_raw}

-- The counters that `NET_INC_STATS` raises.
pub data Stat : Type 0 where
  want_zero_window_adv to_zero_window_adv from_zero_window_adv : Stat

-- What one call leaves: the socket, the 16-bit field, and the counters raised.
pub record Selected : Type 0 where
  pub sk : Sock
  pub window : ℕ
  pub stats : List Stat

-- What the headers of the kernel give: `tcp_receive_window` and `MAX_TCP_WINDOW`.
pub record Headers : Type 0 where
  pub tcp_receive_window : Sock → ℕ
  pub max_tcp_window : ℕ

abbrev pub leo_dynamic : Net → Bool
leo_dynamic net = not (net.leo_rwnd_enable == 0) && not (net.leo_dynamic_enable == 0)

-- The window after either controller.
pub controlled : Env → Net → Sock → ℕ → ℕ → Sock × ℕ
controlled env net sk cur_win new_win =
    if leo_dynamic net
    then tcp_leo_dynamic_target env net sk new_win
    else if net.leo_rwnd_enable == 0
    then (sk, new_win)
    else (sk, tcp_leo_rwnd_clamp env net sk cur_win new_win)

-- The guard against shrinking, which the dynamic controller skips.
abbrev pub may_shrink : Net → ℕ → Bool
may_shrink net wscale = not (net.shrink_window == 0) && not (wscale == 0)

pub guarded : Net → ℕ → ℕ → ℕ → ℕ × List Stat
guarded net wscale cur_win new_win =
    if ltb new_win cur_win && not (leo_dynamic net) && not (may_shrink net wscale)
    then (align32 cur_win (2 ^ wscale), if new_win == 0 then want_zero_window_adv ∷ [] else [])
    else (new_win, [])

-- The field on the wire.
pub scaled : Headers → Net → ℕ → ℕ → ℕ
scaled hd net wscale new_win =
    min new_win (
      if wscale == 0 && not (net.workaround_signed_windows == 0)
      then hd.max_tcp_window
      else 65535 * 2 ^ wscale)
    / 2 ^ wscale

-- The bookkeeping at the end, with the cast to `u16`, over the window in force before the call.
pub advertise : Sock → ℕ → ℕ → List Stat → Selected
advertise sk old_win window stats =
    if window == 0
    then record {
      sk = record sk { pred_flags = 0 };
      window = 0;
      stats = if old_win == 0 then stats else to_zero_window_adv ∷ stats;
    }
    else record {
      sk = sk;
      window = window % 2 ^ 16;
      stats = if old_win == 0 then from_zero_window_adv ∷ stats else stats;
    }

-- Out of memory: a zero window.
pub no_memory : Sock → Selected
no_memory sk = record {
  sk = record sk { pred_flags = 0; rcv_wnd = 0; rcv_wup = sk.rcv_nxt };
  window = 0;
  stats = [];
}

pub tcp_select_window : Headers → Memory → Env → Net → Sock → Selected
tcp_select_window hd m env net sk =
    if sk.ack_nomem
    then no_memory sk
    else (let cur_win = hd.tcp_receive_window sk in
        let (raw, raw_sk) = tcp_select_window_raw m net sk in
        let (new_sk, new_win) = controlled env net raw_sk cur_win raw in
        let (wnd, stats) = guarded net new_sk.rcv_wscale cur_win new_win in
        let last_sk = record new_sk { rcv_wnd = wnd; rcv_wup = new_sk.rcv_nxt } in
        advertise last_sk sk.rcv_wnd (scaled hd net last_sk.rcv_wscale wnd) stats)
