-- ===== src/Send/Mss.antt =====
-- The size of a segment, redhat_kernel/tcp_output.c: from the MTU of the path to the MSS and back.
pub mod Inverse
pub mod Fits
use starlink_tcp.Common.{
  ℕ, ◌+◌, ◌%◌, ◌^◌, Bool, true, Option, none, some, ◌==◌, not, ltb, if◌then◌else◌, sub32, u32,
}
use starlink_tcp.Common.Int.{ℤ, pos, ◌+ℤ◌, ◌-ℤ◌, ltb_ℤ, leb_ℤ, u32_of_int}
use starlink_tcp.Send.Options.{Wire, Key, OutOptions}
use starlink_tcp.Send.Options.Established.{Running, Sized, tcp_established_options}

-- `max` and `min` of `int`s.
abbrev pub max_ℤ : ℤ → ℤ → ℤ
max_ℤ a b = if leb_ℤ a b then b else a

abbrev pub min_ℤ : ℤ → ℤ → ℤ
min_ℤ a b = if leb_ℤ a b then a else b

-- `icsk_mtup`; the two ends of the search are `int`s.
pub record Mtup : Type 0 where
  pub enabled : Bool
  pub search_high : ℤ
  pub search_low : ℤ
  pub probe_size : ℕ
  pub probe_timestamp : ℕ

-- What the code reads and writes of a socket: `net_header_len` is that of `icsk_af_ops`,
-- `min_snd_mss` is `sysctl_tcp_min_snd_mss`, and so on for `base_mss` and `mtu_probing`.
pub record Route : Type 0 where
  pub tcp_header_len : ℕ
  pub net_header_len : ℕ
  pub ext_hdr_len : ℕ
  pub mss_clamp : ℕ
  pub min_snd_mss : ℕ
  pub base_mss : ℕ
  pub mtu_probing : ℕ
  pub pmtu_cookie : ℕ
  pub mss_cache : ℕ
  pub mtup : Mtup

-- `mss = metric` is stored too; without a route the MSS stays. The result is the `__u16`, and the
-- `advmss` of the socket.
pub tcp_advertise_mss : Option ℕ → ℕ → ℕ × ℕ
tcp_advertise_mss none advmss = (advmss % 2 ^ 16, advmss)
tcp_advertise_mss (some metric) advmss =
    if ltb metric advmss then (metric % 2 ^ 16, metric) else (advmss % 2 ^ 16, advmss)

-- `search_high > pmtu` compares unsigned numbers.
unfoldable pub lower_search : ℕ → Route → Route
lower_search pmtu p =
    if ltb pmtu (u32_of_int p.mtup.search_high)
    then record p { mtup = record p.mtup { search_high = pos pmtu } }
    else p

-- `sizeof(struct tcphdr)`, and `tcp_bound_to_half_wnd` at the socket, are the kernel's headers'.
module _ (sizeof_tcphdr : ℕ) where
  unfoldable pub mtu_to_mss : Route → ℤ → ℤ
  mtu_to_mss p pmtu =
      let mms = pmtu -ℤ pos p.net_header_len -ℤ pos sizeof_tcphdr in
      max_ℤ (min_ℤ mms (pos p.mss_clamp) -ℤ pos p.ext_hdr_len) (pos p.min_snd_mss)

  unfoldable pub tcp_mtu_to_mss : Route → ℤ → ℤ
  unfolding mtu_to_mss
  tcp_mtu_to_mss p pmtu = mtu_to_mss p pmtu -ℤ (pos p.tcp_header_len -ℤ pos sizeof_tcphdr)

  pub tcp_mss_to_mtu : Route → ℤ → ℤ
  tcp_mss_to_mtu p mss = mss +ℤ pos p.tcp_header_len +ℤ pos p.ext_hdr_len +ℤ pos p.net_header_len

  tcp_mtup_init : ℕ → Route → Route
  unfolding tcp_mss_to_mtu
  tcp_mtup_init jiffies p =
      let enabled = ltb 1 p.mtu_probing in
      record p {
        mtup = record {
          enabled = enabled;
          search_high = pos (p.mss_clamp + sizeof_tcphdr + p.net_header_len);
          search_low = tcp_mss_to_mtu p (pos p.base_mss);
          probe_size = 0;
          probe_timestamp = if enabled then jiffies else p.mtup.probe_timestamp;
        };
      }

  unfoldable pub synced_mss : (ℤ → ℤ) → ℕ → Route → ℤ
  unfolding tcp_mtu_to_mss
  synced_mss bound_to_half_wnd pmtu p =
      let mss_now = bound_to_half_wnd (tcp_mtu_to_mss p (pos pmtu)) in
      if p.mtup.enabled then min_ℤ mss_now (tcp_mtu_to_mss p p.mtup.search_low) else mss_now

  -- The socket, with the MSS in `mss_cache`, which the function returns too.
  unfoldable pub tcp_sync_mss : (ℤ → ℤ) → ℕ → Route → Route
  unfolding lower_search synced_mss
  tcp_sync_mss bound_to_half_wnd pmtu p =
      let q = lower_search pmtu p in
      record q { pmtu_cookie = pmtu; mss_cache = u32_of_int (synced_mss bound_to_half_wnd pmtu q) }

  -- The MTU of the route, `none` without one.
  unfoldable pub refresh : (ℤ → ℤ) → Option ℕ → Route → Route
  unfolding tcp_sync_mss
  refresh bound_to_half_wnd none p = p
  refresh bound_to_half_wnd (some mtu) p =
      if mtu == p.pmtu_cookie then p else tcp_sync_mss bound_to_half_wnd mtu p

  -- The socket and the MSS; `mss_now -= delta` where the options are not the usual ones.
  pub tcp_current_mss : Wire → (ℤ → ℤ) → Option ℕ → Running → Key → Route → Route × ℕ
  unfolding refresh
  tcp_current_mss w bound_to_half_wnd mtu r key p =
      let q = refresh bound_to_half_wnd mtu p in
      let header_len = (tcp_established_options w r key).size + sizeof_tcphdr in
      (
        q,
        if header_len == q.tcp_header_len
            then q.mss_cache
            else u32 (sub32 (q.mss_cache + q.tcp_header_len) header_len),
      )
