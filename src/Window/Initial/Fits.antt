-- ===== src/Window/Initial/Fits.antt =====
-- The window and the clamp that redhat_kernel/tcp_output.c starts with fit the scaled 16-bit field.
use native.Mathlib.Nat.{div-mul-le_self}
use starlink_tcp.Common.{ℕ, ◌*◌, ◌^◌, ◌≤◌, min, arith}
use starlink_tcp.Common.Int.{ℤ, pos_part}
use starlink_tcp.Kernel.Net.{Net}
use starlink_tcp.Leo.Ewma.Bounds.{pow_pos}
use starlink_tcp.Window.Initial.{
  Start, start_clamp, start_space, start_window, start_wscale, tcp_select_initial_window,
}

start_space-le :
    (h : Start) (space : ℤ) (mss window_clamp : ℕ)
    → (start_space h space mss window_clamp ≤ start_clamp h window_clamp)
      × (start_space h space mss window_clamp ≤ pos_part space)
start_space-le h space mss window_clamp =
    ground (arith, div-mul-le_self (min (start_clamp h window_clamp) (pos_part space)) mss)

start_window-le :
    (h : Start) (net : Net) (space mss : ℕ)
    → h.max_tcp_window ≤ 65535
    → (start_window h net space mss ≤ space) × (start_window h net space mss ≤ 65535)
unfolding start_window
start_window-le h net space mss m = ground arith

start_wscale-le : (h : Start) (space clamp : ℕ) → start_wscale h space clamp ≤ h.tcp_max_wscale
unfolding start_wscale
start_wscale-le h space clamp = ground arith

-- A connection starts with a window that needs no scaling and lies within the free space and within
-- the clamp it stores; the scale is one that may be negotiated; and the clamp is one that the
-- 16-bit field can express at that scale (`MAX_TCP_WINDOW` being at most 65535).
pub tcp_select_initial_window_fits :
    (h : Start) (net : Net) (space : ℤ) (mss window_clamp : ℕ)
    → h.max_tcp_window ≤ 65535
    → let out = tcp_select_initial_window h net space mss window_clamp in
      (out.rcv_wnd ≤ 65535)
      × (out.rcv_wnd ≤ pos_part space)
      × (out.rcv_wnd ≤ out.window_clamp)
      × (out.window_clamp ≤ 65535 * 2 ^ out.rcv_wscale)
      × (out.rcv_wscale ≤ h.tcp_max_wscale)
unfolding tcp_select_initial_window
tcp_select_initial_window_fits h net space mss window_clamp m = omega (
  arith,
  start_space-le h space mss window_clamp,
  start_window-le h net (start_space h space mss window_clamp) mss m,
  start_wscale-le h (start_space h space mss window_clamp) (start_clamp h window_clamp),
  pow_pos (start_wscale h (start_space h space mss window_clamp) (start_clamp h window_clamp)),
)
