-- ===== src/Window/Initial.antt =====
-- `tcp_select_initial_window` of redhat_kernel/tcp_output.c: the window and the scale that a
-- connection starts with.
pub mod Fits
use starlink_tcp.Common.{
  ℕ, ◌-◌, ◌*◌, ◌/◌, ◌^◌, ◌≤◌, ◌≡◌, ◌<◌, ◌+◌, Bool, min, max, ◌==◌, ltb, if◌then◌else◌, arith, mul32,
  ap,
}
use starlink_tcp.Common.Int.{ℤ, pos, ◌-ℤ◌, pos_part}
use starlink_tcp.Kernel.Net.{Net}
use native.Mathlib.Nat.{div-mul-le_self}

-- The constants and the function of the kernel's headers, the two buffer sysctls as `u32`, and the
-- option of the route.
pub record Start : Type 0 where
  pub max_tcp_window : ℕ
  pub tcp_max_wscale : ℕ
  pub ilog2 : ℕ → ℤ
  pub tcp_rmem_max : ℕ
  pub rmem_max : ℕ
  pub wscale_ok : Bool
  pub init_rcv_wnd : ℕ

-- What the function stores through its pointers.
pub record Offered : Type 0 where
  pub rcv_wnd : ℕ
  pub window_clamp : ℕ
  pub rcv_wscale : ℕ

-- No clamp is the largest window that can be scaled.
abbrev pub start_clamp : Start → ℕ → ℕ
start_clamp h window_clamp =
    if window_clamp == 0 then 65535 * 2 ^ h.tcp_max_wscale else window_clamp

-- The space under the clamp, in whole segments if there is more than one.
abbrev pub start_space : Start → ℤ → ℕ → ℕ → ℕ
start_space h space mss window_clamp =
    let under = min (start_clamp h window_clamp) (pos_part space) in
    if ltb mss under then under / mss * mss else under

pub start_window : Start → Net → ℕ → ℕ → ℕ
start_window h net space mss =
    let wnd =
      if net.workaround_signed_windows == 0 then min space 65535 else min space h.max_tcp_window in
    if h.init_rcv_wnd == 0 then wnd else min wnd (mul32 h.init_rcv_wnd mss)

-- `clamp_t(int, ilog2(space) - 15, 0, TCP_MAX_WSCALE)`
pub start_wscale : Start → ℕ → ℕ → ℕ
start_wscale h space clamp =
    if h.wscale_ok
    then min (pos_part (h.ilog2 (min (max (max space h.tcp_rmem_max) h.rmem_max) clamp) -ℤ pos 15))
        h.tcp_max_wscale
    else 0

pub tcp_select_initial_window : Start → Net → ℤ → ℕ → ℕ → Offered
unfolding start_window start_wscale
tcp_select_initial_window h net space mss window_clamp =
    let clamp = start_clamp h window_clamp in
    let room = start_space h space mss window_clamp in
    let wscale = start_wscale h room clamp in
    record {
      rcv_wnd = start_window h net room mss;
      window_clamp = min (65535 * 2 ^ wscale) clamp;
      rcv_wscale = wscale;
    }
