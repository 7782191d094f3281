-- ===== src/Examples/Windows.antt =====
-- Runs of redhat_kernel/tcp_output.c: the fixed controller and the choice of the window.
use starlink_tcp.Common.{
  ltb, if◌then◌else◌, ◌≡◌, ◌^◌, ◌*◌, ◌+◌, ◌<◌, ◌≤◌, arith, true, false, refl, min,
}
use starlink_tcp.Common.Int.{pos}
use starlink_tcp.Examples.{defaults, fixed_only, at_us, socket, other_socket, headers, memory}
use starlink_tcp.Leo.Dynamic.{leo_active}
use starlink_tcp.Leo.Period.{leo_period_position_us}
use starlink_tcp.Leo.Ports.{tcp_leo_port_matches, any_slot}
use starlink_tcp.Window.Fixed.{tcp_leo_rwnd_phase_ms, tcp_leo_rwnd_clamp, tcp_leo_rwnd_min_window}
use starlink_tcp.Window.Fixed.Bounds.{tcp_leo_rwnd_clamp_safe}
use starlink_tcp.Window.Fixed.Clock.{clocks_agree}
use starlink_tcp.Window.Select.{tcp_select_window}
use starlink_tcp.Window.Select.Keep.{
  tcp_select_window_keeps, tcp_select_window_shrinks, tcp_select_window_wire,
}
use starlink_tcp.Window.Initial.{Start, tcp_select_initial_window}
use starlink_tcp.Window.Initial.Fits.{tcp_select_initial_window_fits}
use starlink_tcp.Window.Space.{
  tcp_select_window_raw, select_space, shrink_window_allowed, shrink_end, tighten,
}

clocks_agree_example :
    leo_period_position_us defaults 26_930_500
    ≡ tcp_leo_rwnd_phase_ms (at_us 26_930_500) defaults * 1000 + 500
clocks_agree_example = clocks_agree (at_us 26_930_500) (omega arith)

tcp_leo_rwnd_clamp_safe_example :
    let window = tcp_leo_rwnd_clamp (at_us 26_930_000) fixed_only socket 900_000 1_000_000 in
    (window ≤ 1_000_000)
    × (min 1_000_000 (tcp_leo_rwnd_min_window (at_us 26_930_000) fixed_only socket) ≤ window)
    × (900_000 ≤ window + 50_000)
tcp_leo_rwnd_clamp_safe_example =
    tcp_leo_rwnd_clamp_safe (at_us 26_930_000) fixed_only socket 900_000 1_000_000 (omega arith)

tcp_select_window_keeps_example :
    let out = tcp_select_window headers (memory 500_000) (at_us 26_930_000) fixed_only socket in
    (900_000 ≤ out.sk.rcv_wnd) × (out.sk.rcv_wup ≡ 105_000)
tcp_select_window_keeps_example =
    tcp_select_window_keeps headers (memory 500_000) (at_us 26_930_000) fixed_only socket refl refl
      refl (omega arith)

-- The memory allows this much of the 800000 bytes that are free.
other_raw :
    (tcp_select_window_raw (memory 800_000) defaults other_socket)
    ≡ (800_000, record other_socket { quick = 0 })
other_raw =
    unfold tcp_select_window_raw select_space shrink_window_allowed shrink_end tighten in refl

other_off :
    leo_active
      (at_us 26_930_000)
      defaults
      (tcp_select_window_raw (memory 800_000) defaults other_socket).1
    ≡ false
other_off = rw other_raw (unfold leo_active tcp_leo_port_matches any_slot in refl)

-- The window in force is 900000 bytes, and the ports are not on the list.
tcp_select_window_shrinks_example :
    let out = tcp_select_window headers (memory 800_000) (at_us 26_930_000) defaults other_socket in
    (out.sk.rcv_wnd ≡ (tcp_select_window_raw (memory 800_000) defaults other_socket).0)
    × (out.sk.rcv_wnd < 900_000)
tcp_select_window_shrinks_example =
    tcp_select_window_shrinks headers (memory 800_000) (at_us 26_930_000) defaults other_socket refl
      refl other_off (rw other_raw (omega arith))

tcp_select_window_wire_example :
    let out = tcp_select_window headers (memory 500_000) (at_us 26_930_000) defaults socket in
    (out.window < 2 ^ 16)
    × (out.window * 128 ≤ out.sk.rcv_wnd)
    × (min out.sk.rcv_wnd (65535 * 128) < out.window * 128 + 128)
tcp_select_window_wire_example =
    tcp_select_window_wire headers (memory 500_000) (at_us 26_930_000) defaults socket refl refl

-- A start with the usual constants; the logarithm is counted for the sizes that come up.
abbrev start : Start
start = record {
  max_tcp_window = 32_767;
  tcp_max_wscale = 14;
  ilog2 = λ n. if ltb n (2 ^ 22) then pos 21 else pos 22;
  tcp_rmem_max = 6_291_456;
  rmem_max = 212_992;
  wscale_ok = true;
  init_rcv_wnd = 10;
}

tcp_select_initial_window_fits_example :
    let out = tcp_select_initial_window start defaults (pos 65_483) 1_460 0 in
    (out.rcv_wnd ≤ 65535)
    × (out.rcv_wnd ≤ 65_483)
    × (out.rcv_wnd ≤ out.window_clamp)
    × (out.window_clamp ≤ 65535 * 2 ^ out.rcv_wscale)
    × (out.rcv_wscale ≤ 14)
tcp_select_initial_window_fits_example =
    tcp_select_initial_window_fits start defaults (pos 65_483) 1_460 0 (omega arith)
