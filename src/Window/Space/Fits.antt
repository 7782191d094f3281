-- ===== src/Window/Space/Fits.antt =====
-- The window that the memory allows (redhat_kernel/tcp_output.c) against the free memory and the
-- scale.
use native.Mathlib.Nat.{div-mul-le_self}
use starlink_tcp.Common.{
  ℕ, ◌==◌, ◌+◌, ◌-◌, ◌*◌, ◌/◌, ◌^◌, ◌≤◌, ◌<◌, ◌≡◌, arith, true, not, ◌&&◌, if◌then◌else◌, if-elim,
  refl,
}
use starlink_tcp.Common.Int.{ℤ, pos, pos_part, neg_part, ltb_ℤ, shr_ℤ, round_down}
use starlink_tcp.Kernel.Net.{Net}
use starlink_tcp.Kernel.Sock.{Sock}
use starlink_tcp.Leo.Ewma.Bounds.{pow_pos}
use starlink_tcp.Window.Space.{
  Memory, free_space, full_space_of, mss_of, shrink_end, shrink_window_allowed, select_space,
  tighten, tcp_select_window_raw,
}

-- Rounded up, a number below a multiple does not pass it.
ceil-le : (t q u : ℕ) → 0 < u → t < q * u → (t + (u - 1)) / u * u ≤ q * u
ceil-le t q u h l = grind arith

round_again : (n u : ℕ) → 0 < u → n / u * u / u * u ≡ n / u * u
round_again n u h = grind arith

-- A window of at most `free` bytes, in whole units.
pub record IsRounded (w : ℤ) (unit free : ℕ) : Type 0 where
  pub sign : neg_part w ≡ 0
  pub fits : pos_part w ≤ free
  pub whole : pos_part w / unit * unit ≡ pos_part w

shrink_end-IsRounded :
    (sk : Sock) (unit n : ℕ)
    → 0 < unit
    → n < 2 ^ 31
    → IsRounded (shrink_end sk unit (pos (n / unit * unit))) unit n
unfolding shrink_end
shrink_end-IsRounded sk unit n h l = ground (
  arith,
  div-mul-le_self n unit,
  ceil-le sk.rcv_ssthresh (n / unit) unit h,
  round_again n unit h,
  round_again (sk.rcv_ssthresh + (unit - 1)) unit h,
)

none_left : (unit free : ℕ) → IsRounded (pos 0) unit free
none_left unit free = record { sign = refl; fits = omega arith; whole = grind arith }

shrink_window_allowed-IsRounded :
    (m : Memory) (sk : Sock) (mss full_space : ℤ) {free : ℕ}
    → free_space m ≡ pos free
    → free < 2 ^ 31
    → IsRounded (shrink_window_allowed m sk mss full_space).0 (2 ^ sk.rcv_wscale) free
unfolding shrink_window_allowed
shrink_window_allowed-IsRounded m sk mss full_space {free} e l = rw e (
    if-elim (λ w. IsRounded w (2 ^ sk.rcv_wscale) free) _ (none_left (2 ^ sk.rcv_wscale) free)
      (shrink_end-IsRounded
        (if ltb_ℤ (round_down (pos free) (2 ^ sk.rcv_wscale)) (shr_ℤ full_space 1)
          then tighten m sk
          else sk)
        (2 ^ sk.rcv_wscale) free (pow_pos sk.rcv_wscale) l))

-- Where the window may shrink, the window that the memory allows is no larger than the free memory
-- (a number below 2 ^ 31) and a whole number of units of the scale, so that scaling loses nothing.
tcp_select_window_raw_whole :
    (m : Memory) (net : Net) (sk : Sock) {free : ℕ}
    → (not (net.shrink_window == 0) && not (sk.rcv_wscale == 0)) ≡ true
    → free_space m ≡ pos free
    → free < 2 ^ 31
    → let window = (tcp_select_window_raw m net sk).0 in
      (window ≤ free) × (window / 2 ^ sk.rcv_wscale * 2 ^ sk.rcv_wscale ≡ window)
unfolding tcp_select_window_raw select_space
tcp_select_window_raw_whole m net sk {free} s e l =
    ground (arith, shrink_window_allowed-IsRounded m sk (mss_of m sk) (full_space_of m sk) e l)
