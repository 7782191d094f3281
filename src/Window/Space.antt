-- ===== src/Window/Space.antt =====
-- `__tcp_select_window` of redhat_kernel/tcp_output.c: the window that the free memory allows.
pub mod Bounds
pub mod Fits
use starlink_tcp.Common.{ℕ, ◌-◌, ◌^◌, Bool, true, false, not, ◌&&◌, ◌||◌, ◌==◌, ltb, if◌then◌else◌}
use starlink_tcp.Common.Int.{
  ℤ, pos, ltb_ℤ, leb_ℤ, ◌+ℤ◌, ◌-ℤ◌, shr_ℤ, round_down, rounddown, align_ℤ, int_of_u32, u32_of_int,
}
use starlink_tcp.Kernel.Net.{Net}
use starlink_tcp.Kernel.Sock.{Sock}

-- What the memory accounting of the kernel answers: `tcp_space`, `tcp_full_space`, or for an MPTCP
-- socket what `mptcp_space` puts in their place; whether memory is short; and what
-- `tcp_adjust_rcv_ssthresh` makes of `rcv_ssthresh`.
pub record Memory : Type 0 where
  pub tcp_space : ℤ
  pub tcp_full_space : ℤ
  pub is_mptcp : Bool
  pub mptcp_free : ℤ
  pub mptcp_allowed : ℤ
  pub under_pressure : Bool
  pub adjusted : ℕ → ℕ

abbrev pub free_space : Memory → ℤ
free_space m = if m.is_mptcp then m.mptcp_free else m.tcp_space

abbrev pub allowed_space : Memory → ℤ
allowed_space m = if m.is_mptcp then m.mptcp_allowed else m.tcp_full_space

abbrev pub min_ℤ : ℤ → ℤ → ℤ
min_ℤ a b = if ltb_ℤ a b then a else b

-- What happens when less than half the space is free: quick ACKs end, and the threshold may fall.
unfoldable pub tighten : Memory → Sock → Sock
tighten m sk =
    if m.under_pressure
    then record sk { quick = 0; rcv_ssthresh = m.adjusted sk.rcv_ssthresh }
    else record sk { quick = 0 }

-- The window without shrinking, once the free space is known to suffice.
pub keep_window : Sock → ℤ → ℤ → ℤ → ℤ
keep_window sk mss full_space free =
    let window = int_of_u32 sk.rcv_wnd in
    if not (sk.rcv_wscale == 0)
    then align_ℤ free (2 ^ sk.rcv_wscale)
    else if leb_ℤ window (free -ℤ mss) || ltb_ℤ free window
    then rounddown free (u32_of_int mss)
    else if leb_ℤ mss full_space
        && leb_ℤ full_space mss
        && ltb_ℤ (window +ℤ shr_ℤ full_space 1) free
    then free
    else window

-- `if (free_space > tp->rcv_ssthresh) free_space = tp->rcv_ssthresh`: an unsigned comparison.
abbrev pub over_threshold : Sock → ℤ → Bool
over_threshold sk free = ltb sk.rcv_ssthresh (u32_of_int free)

pub steady_end : Sock → ℤ → ℤ → ℤ → ℤ
unfolding keep_window
steady_end sk mss full_space free =
    keep_window sk mss full_space
      (if over_threshold sk free then int_of_u32 sk.rcv_ssthresh else free)

-- The path on which the window may not shrink.
pub steady_window : Memory → Sock → ℤ → ℤ → ℤ × Sock
unfolding tighten steady_end
steady_window m sk mss full_space =
    let low = ltb_ℤ (free_space m) (shr_ℤ full_space 1) in
    let free = if low then round_down (free_space m) (2 ^ sk.rcv_wscale) else free_space m in
    let s = if low then tighten m sk else sk in
    (
      if low && (ltb_ℤ free (shr_ℤ (allowed_space m) 4) || ltb_ℤ free mss)
          then pos 0
          else steady_end s mss full_space free,
      s,
    )

-- The path `shrink_window_allowed`.
unfoldable pub shrink_end : Sock → ℕ → ℤ → ℤ
shrink_end sk unit free =
    if over_threshold sk free then align_ℤ (int_of_u32 sk.rcv_ssthresh) unit else free

unfoldable pub shrink_window_allowed : Memory → Sock → ℤ → ℤ → ℤ × Sock
unfolding tighten shrink_end
shrink_window_allowed m sk mss full_space =
    let unit = 2 ^ sk.rcv_wscale in
    let free = round_down (free_space m) unit in
    let low = ltb_ℤ free (shr_ℤ full_space 1) in
    let s = if low then tighten m sk else sk in
    (
      if low && (ltb_ℤ free (shr_ℤ (allowed_space m) 4) || ltb_ℤ free mss || ltb_ℤ free (pos unit))
          then pos 0
          else shrink_end s unit free,
      s,
    )

abbrev pub full_space_of : Memory → Sock → ℤ
full_space_of m sk = min_ℤ (int_of_u32 sk.window_clamp) (allowed_space m)

abbrev pub mss_of : Memory → Sock → ℤ
mss_of m sk =
    if ltb_ℤ (full_space_of m sk) (pos sk.rcv_mss) then full_space_of m sk else pos sk.rcv_mss

-- The window as an `int`, and the socket after; the function returns it as `u32`.
unfoldable pub select_space : Memory → Net → Sock → ℤ × Sock
select_space m net sk =
    if ltb_ℤ (full_space_of m sk) (pos sk.rcv_mss) && leb_ℤ (mss_of m sk) (pos 0)
    then (pos 0, sk)
    else if not (net.shrink_window == 0) && not (sk.rcv_wscale == 0)
    then shrink_window_allowed m sk (mss_of m sk) (full_space_of m sk)
    else steady_window m sk (mss_of m sk) (full_space_of m sk)

unfoldable pub tcp_select_window_raw : Memory → Net → Sock → ℕ × Sock
tcp_select_window_raw m net sk =
    let (window, sk') = select_space m net sk in (u32_of_int window, sk')
