-- ===== src/Window/Select/Keep.antt =====
-- What `tcp_select_window` (redhat_kernel/tcp_output.c) advertises.
use native.Mathlib.Nat.{div-add-mod', mod-lt, div-le_of_le-mul, div-mul-le_self, lt-div-mul-add}
use starlink_tcp.Common.{
  ℕ, ◌+◌, ◌-◌, ◌*◌, ◌/◌, ◌%◌, ◌^◌, ◌≤◌, ◌<◌, ◌≡◌, arith, true, false, min, align32, List,
}
use starlink_tcp.Kernel.Net.{Net}
use starlink_tcp.Kernel.Sock.{Sock, Env}
use starlink_tcp.Leo.Ewma.Bounds.{pow_pos}
use starlink_tcp.Leo.Dynamic.{tcp_leo_dynamic_target, leo_active}
use starlink_tcp.Leo.Dynamic.Safe.{tcp_leo_dynamic_target_bounds}
use starlink_tcp.Window.Select.{
  Headers, Stat, leo_dynamic, may_shrink, controlled, guarded, scaled, advertise, tcp_select_window,
}
use starlink_tcp.Window.Space.{Memory, tcp_select_window_raw}
use starlink_tcp.Window.Space.Bounds.{tcp_select_window_raw-SameButSpace}

align32-ge : (x a : ℕ) → 0 < a → x + a < 2 ^ 32 → x ≤ align32 x a
align32-ge x a h f =
    omega (arith, div-add-mod' (x + (a - 1)) a, mod-lt (x + (a - 1)) {m = a} h, exact)
  where
    exact : align32 x a ≡ (x + (a - 1)) / a * a
    exact = let e : (x + (a - 1)) % 2 ^ 32 ≡ x + (a - 1) = omega arith in rw e

-- The guard gives back at least the window in force.
guarded-ge :
    (net : Net) (wscale cur_win new_win : ℕ)
    → leo_dynamic net ≡ false
    → may_shrink net wscale ≡ false
    → cur_win + 2 ^ wscale < 2 ^ 32
    → cur_win ≤ (guarded net wscale cur_win new_win).0
unfolding guarded
guarded-ge net wscale cur_win new_win d s f =
    ground (arith, align32-ge cur_win (2 ^ wscale) (pow_pos wscale) f)

-- The bookkeeping leaves the recorded window.
advertise-record :
    (sk : Sock) (old_win window : ℕ) (stats : List Stat)
    → ((advertise sk old_win window stats).sk.rcv_wnd ≡ sk.rcv_wnd)
      × ((advertise sk old_win window stats).sk.rcv_wup ≡ sk.rcv_wup)
      × ((advertise sk old_win window stats).sk.leo_state ≡ sk.leo_state)
      × ((advertise sk old_win window stats).window ≡ window % 2 ^ 16)
unfolding advertise
advertise-record sk old_win window stats = ground arith

-- The controllers leave the sequence number and the scale of a socket.
controlled-keeps :
    (env : Env) (net : Net) (sk : Sock) (cur_win new_win : ℕ)
    → ((controlled env net sk cur_win new_win).0.rcv_nxt ≡ sk.rcv_nxt)
      × ((controlled env net sk cur_win new_win).0.rcv_wscale ≡ sk.rcv_wscale)
unfolding controlled
controlled-keeps env net sk cur_win new_win =
    ground (arith, tcp_leo_dynamic_target_bounds env net sk new_win)

guarded-dynamic :
    (net : Net) (wscale cur_win new_win : ℕ)
    → leo_dynamic net ≡ true
    → (guarded net wscale cur_win new_win).0 ≡ new_win
unfolding guarded
guarded-dynamic net wscale cur_win new_win d = ground arith

controlled-dynamic :
    (env : Env) (net : Net) (sk : Sock) (cur_win new_win : ℕ)
    → leo_dynamic net ≡ true
    → controlled env net sk cur_win new_win ≡ tcp_leo_dynamic_target env net sk new_win
unfolding controlled
controlled-dynamic env net sk cur_win new_win d = rw d

scale_lem :
    (n unit : ℕ)
    → 0 < unit
    → let field = min n (65535 * unit) / unit in
      (field < 2 ^ 16) × (field * unit ≤ n) × (min n (65535 * unit) < field * unit + unit)
scale_lem n unit h = (
  omega (arith, div-le_of_le-mul unit {m = min n (65535 * unit)} {n = 65535} (omega arith)),
  omega (arith, div-mul-le_self (min n (65535 * unit)) unit),
  lt-div-mul-add h,
)

scaled_lem :
    (hd : Headers) (net : Net) (wscale new_win : ℕ)
    → net.workaround_signed_windows ≡ 0
    → let unit = 2 ^ wscale in
      (scaled hd net wscale new_win < 2 ^ 16)
      × (scaled hd net wscale new_win * unit ≤ new_win)
      × (min new_win (65535 * unit) < scaled hd net wscale new_win * unit + unit)
unfolding scaled
scaled_lem hd net wscale new_win w = ground (arith, scale_lem new_win (2 ^ wscale) (pow_pos wscale))

module _ (hd : Headers) (m : Memory) (env : Env) (net : Net) (sk : Sock) where
  -- The socket and the window after the memory and the controller have had their say.
  abbrev pub raw : ℕ × Sock
  raw = tcp_select_window_raw m net sk

  abbrev pub chosen : Sock × ℕ
  chosen = controlled env net raw.1 (hd.tcp_receive_window sk) raw.0

  chosen-keeps : (chosen.0.rcv_nxt ≡ sk.rcv_nxt) × (chosen.0.rcv_wscale ≡ sk.rcv_wscale)
  chosen-keeps = ground (
    arith,
    controlled-keeps env net raw.1 (hd.tcp_receive_window sk) raw.0,
    tcp_select_window_raw-SameButSpace m net sk,
  )

  pub recorded :
      sk.ack_nomem ≡ false
      → let out = tcp_select_window hd m env net sk in
        let guard = guarded net sk.rcv_wscale (hd.tcp_receive_window sk) chosen.1 in
        (out.sk.rcv_wnd ≡ guard.0)
        × (out.sk.rcv_wup ≡ sk.rcv_nxt)
        × (out.sk.leo_state ≡ chosen.0.leo_state)
        × (out.window ≡ scaled hd net sk.rcv_wscale guard.0 % 2 ^ 16)
  unfolding tcp_select_window
  recorded n = rw n (
      ground (
        arith,
        chosen-keeps,
        advertise-record
            (record chosen.0 {
              rcv_wnd = (guarded net chosen.0.rcv_wscale (hd.tcp_receive_window sk) chosen.1).0;
              rcv_wup = chosen.0.rcv_nxt;
            })
            sk.rcv_wnd
            (scaled hd net chosen.0.rcv_wscale
              (guarded net chosen.0.rcv_wscale (hd.tcp_receive_window sk) chosen.1).0)
            (guarded net chosen.0.rcv_wscale (hd.tcp_receive_window sk) chosen.1).1,
      ))

-- With neither the dynamic controller nor the permission to shrink, a segment never takes back the
-- window in force: unless the socket is out of memory, the window recorded is at least it (if it
-- can be rounded up within 32 bits), and the new edge counts from the bytes received so far.
pub tcp_select_window_keeps :
    (hd : Headers) (m : Memory) (env : Env) (net : Net) (sk : Sock)
    → leo_dynamic net ≡ false
    → may_shrink net sk.rcv_wscale ≡ false
    → sk.ack_nomem ≡ false
    → hd.tcp_receive_window sk + 2 ^ sk.rcv_wscale < 2 ^ 32
    → (hd.tcp_receive_window sk ≤ (tcp_select_window hd m env net sk).sk.rcv_wnd)
      × ((tcp_select_window hd m env net sk).sk.rcv_wup ≡ sk.rcv_nxt)
tcp_select_window_keeps hd m env net sk d s n f = omega (
  arith,
  recorded hd m env net sk n,
  guarded-ge net sk.rcv_wscale (hd.tcp_receive_window sk) (chosen hd m env net sk).1 d s f,
)

-- With the dynamic controller the window recorded is the controller's own.
tcp_select_window_dynamic :
    (hd : Headers) (m : Memory) (env : Env) (net : Net) (sk : Sock)
    → leo_dynamic net ≡ true
    → sk.ack_nomem ≡ false
    → let (win, raw_sk) = tcp_select_window_raw m net sk in
      let (new_sk, target) = tcp_leo_dynamic_target env net raw_sk win in
      let out = tcp_select_window hd m env net sk in
      (out.sk.rcv_wnd ≡ target) × (out.sk.leo_state ≡ new_sk.leo_state)
tcp_select_window_dynamic hd m env net sk d n = ground (
  arith,
  recorded hd m env net sk n,
  guarded-dynamic net sk.rcv_wscale (hd.tcp_receive_window sk) (chosen hd m env net sk).1 d,
  controlled-dynamic env net (raw hd m env net sk).1 (hd.tcp_receive_window sk)
      (raw hd m env net sk).0 d,
)

-- The dynamic controller does not know a socket whose ports are not on its list, yet the guard is
-- off for it: unless the socket is out of memory, where the window that the memory allows is below
-- the window in force, the recorded window shrinks to it, even if `sysctl_tcp_shrink_window`
-- forbids that.
pub tcp_select_window_shrinks :
    (hd : Headers) (m : Memory) (env : Env) (net : Net) (sk : Sock)
    → leo_dynamic net ≡ true
    → sk.ack_nomem ≡ false
    → leo_active env net (tcp_select_window_raw m net sk).1 ≡ false
    → (tcp_select_window_raw m net sk).0 < hd.tcp_receive_window sk
    → ((tcp_select_window hd m env net sk).sk.rcv_wnd ≡ (tcp_select_window_raw m net sk).0)
      × ((tcp_select_window hd m env net sk).sk.rcv_wnd < hd.tcp_receive_window sk)
tcp_select_window_shrinks hd m env net sk d n off h = ground (
  arith,
  tcp_select_window_dynamic hd m env net sk d n,
  tcp_leo_dynamic_target_bounds env net (tcp_select_window_raw m net sk).1
      (tcp_select_window_raw m net sk).0,
)

-- Unless the socket is out of memory, and with `sysctl_tcp_workaround_signed_windows` off: the
-- field on the wire has 16 bits and, scaled up again, does not exceed the window recorded, and
-- falls short of it by less than one unit of scale, unless that window is more than 16 bits can
-- hold at that scale.
pub tcp_select_window_wire :
    (hd : Headers) (m : Memory) (env : Env) (net : Net) (sk : Sock)
    → sk.ack_nomem ≡ false
    → net.workaround_signed_windows ≡ 0
    → let out = tcp_select_window hd m env net sk in
      (out.window < 2 ^ 16)
      × (out.window * 2 ^ sk.rcv_wscale ≤ out.sk.rcv_wnd)
      × (min out.sk.rcv_wnd (65535 * 2 ^ sk.rcv_wscale)
          < out.window * 2 ^ sk.rcv_wscale + 2 ^ sk.rcv_wscale)
tcp_select_window_wire hd m env net sk n w = ground (
  arith,
  recorded hd m env net sk n,
  scaled_lem hd net sk.rcv_wscale
      (guarded net sk.rcv_wscale (hd.tcp_receive_window sk) (chosen hd m env net sk).1).0 w,
)
