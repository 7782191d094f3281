-- ===== src/Send/Mss/Fits.antt =====
-- The sizes of redhat_kernel/tcp_output.c agree: an MSS from an MTU fits it.
use starlink_tcp.Common.{
  ℕ, ◌+◌, ◌^◌, ◌≤◌, ◌<◌, ◌≡◌, arith, refl, some, ◌==◌, ltb, min, max, if-elim, if-cases,
  if◌then◌else◌, sub32, u32,
}
use starlink_tcp.Common.Int.{ℤ, pos, u32_of_int, pos_part}
use starlink_tcp.Send.Options.{Wire, IsWire, Key, IsKey, IsBpf}
use starlink_tcp.Send.Options.Established.{Running, tcp_established_options}
use starlink_tcp.Send.Options.Established.Exact.{IsPolite, tcp_established_options-le}
use starlink_tcp.Send.Mss.{
  Route, lower_search, synced_mss, tcp_sync_mss, refresh, tcp_current_mss, min_ℤ,
}
use starlink_tcp.Send.Mss.Inverse.{mss_of, IsRoute, tcp_mtu_to_mss-pos}

-- `tcp_bound_to_half_wnd` lowers an MSS, but not below what the smallest MTU of IPv4 gives.
pub record IsBound (bound_to_half_wnd : ℤ → ℤ) : Type 0 where
  pub half : ℕ → ℕ
  pub lowers : (n : ℕ) → bound_to_half_wnd (pos n) ≡ pos (half n)
  pub below : (n : ℕ) → half n ≤ max n 48

-- A segment with the usual headers fits the MTU for which the MSS was computed.
abbrev pub total : Route → ℕ
total p = p.mss_cache + p.tcp_header_len + p.ext_hdr_len + p.net_header_len

-- The MTU has room for the smallest segment.
pub record IsRoomy (sizeof_tcphdr : ℕ) (p : Route) (pmtu : ℕ) : Type 0 where
  pub floor : p.min_snd_mss + sizeof_tcphdr + p.ext_hdr_len + p.net_header_len ≤ pmtu
  pub smallest : 48 + p.tcp_header_len + p.ext_hdr_len + p.net_header_len ≤ pmtu

-- Lowering the end of the search changes no length.
record SameRoute (p q : Route) : Type 0 where
  tcp_header_len : q.tcp_header_len ≡ p.tcp_header_len
  net_header_len : q.net_header_len ≡ p.net_header_len
  ext_hdr_len : q.ext_hdr_len ≡ p.ext_hdr_len
  min_snd_mss : q.min_snd_mss ≡ p.min_snd_mss

lower_search-SameRoute : (pmtu : ℕ) (p : Route) → SameRoute p (lower_search pmtu p)
unfolding lower_search
lower_search-SameRoute pmtu p =
    if-elim (λ (q : Route). SameRoute p q) (ltb pmtu (u32_of_int p.mtup.search_high))
      (record {
        tcp_header_len = refl;
        net_header_len = refl;
        ext_hdr_len = refl;
        min_snd_mss = refl;
      })
      (record {
        tcp_header_len = refl;
        net_header_len = refl;
        ext_hdr_len = refl;
        min_snd_mss = refl;
      })

min_ℤ-pos : (a b : ℕ) → min_ℤ (pos a) (pos b) ≡ pos (min a b)
min_ℤ-pos a b = ground arith

module _ (sizeof_tcphdr : ℕ) (bound : ℤ → ℤ) (b : IsBound bound) where
  synced_mss-le :
      (pmtu : ℕ) (p : Route)
      → IsRoute sizeof_tcphdr p
      → u32_of_int (synced_mss sizeof_tcphdr bound pmtu p) ≤ max (mss_of sizeof_tcphdr p pmtu) 48
  unfolding synced_mss
  synced_mss-le pmtu p v =
      let now = mss_of sizeof_tcphdr p pmtu in
      let low = mss_of sizeof_tcphdr p (pos_part p.mtup.search_low) in
      rw
        (
          tcp_mtu_to_mss-pos sizeof_tcphdr p (pos pmtu) v,
          tcp_mtu_to_mss-pos sizeof_tcphdr p p.mtup.search_low v,
          b.lowers now,
          min_ℤ-pos (b.half now) low,
        )
        (if-elim (λ (z : ℤ). u32_of_int z ≤ max now 48) p.mtup.enabled (omega (arith, b.below now))
          (b.below now))

  fits_of :
      (pmtu : ℕ) (q : Route)
      → IsRoute sizeof_tcphdr q
      → IsRoomy sizeof_tcphdr q pmtu
      → u32_of_int (synced_mss sizeof_tcphdr bound pmtu q)
          + q.tcp_header_len
          + q.ext_hdr_len
          + q.net_header_len
        ≤ pmtu
  fits_of pmtu q v r = omega (arith, synced_mss-le pmtu q v)

  -- After a change of the path's MTU, a segment of the cached MSS with the usual headers fits it.
  -- The MTU has room for the smallest segment.
  tcp_sync_mss-fits :
      (pmtu : ℕ) (p : Route)
      → IsRoute sizeof_tcphdr p
      → IsRoomy sizeof_tcphdr p pmtu
      → total (tcp_sync_mss sizeof_tcphdr bound pmtu p) ≤ pmtu
  unfolding tcp_sync_mss
  tcp_sync_mss-fits pmtu p v r =
      let same = lower_search-SameRoute pmtu p in
      fits_of pmtu (lower_search pmtu p) (record { header = omega arith; room = omega arith })
        (record { floor = omega arith; smallest = omega arith })

  adjusted :
      (q : Route) (size mtu : ℕ)
      → total q ≤ mtu
      → size ≤ 40
      → mtu < 2 ^ 32
      → 40 + sizeof_tcphdr ≤ q.mss_cache + q.tcp_header_len
      → (if size + sizeof_tcphdr == q.tcp_header_len
            then q.mss_cache
            else u32 (sub32 (q.mss_cache + q.tcp_header_len) (size + sizeof_tcphdr)))
          + size
          + sizeof_tcphdr
          + q.ext_hdr_len
          + q.net_header_len
        ≤ mtu
  adjusted q size mtu t z u m = ground arith

  refresh-le :
      (mtu : ℕ) (p : Route)
      → IsRoute sizeof_tcphdr p
      → IsRoomy sizeof_tcphdr p mtu
      → total p ≤ p.pmtu_cookie
      → total (refresh sizeof_tcphdr bound (some mtu) p) ≤ mtu
  unfolding refresh
  refresh-le mtu p v r c =
      if-cases (λ (q : Route). total q ≤ mtu) (mtu == p.pmtu_cookie) (λ e. ground arith)
        (λ _. tcp_sync_mss-fits mtu p v r)

  -- A segment of the current MSS, with the very options that it is sent with, fits the MTU of the
  -- route, whether or not the MTU changed and however many SACK blocks there are. The MTU has room
  -- for the smallest segment, the MSS that was cached fits the MTU it was computed for, and the
  -- cached MSS has room for the options.
  pub tcp_current_mss-fits :
      (w : Wire) (mtu : ℕ) (r : Running) (key : Key) (p : Route)
      → IsWire w
      → IsKey key
      → IsPolite r.mptcp
      → IsBpf r.bpf
      → IsRoute sizeof_tcphdr p
      → IsRoomy sizeof_tcphdr p mtu
      → total p ≤ p.pmtu_cookie
      → mtu < 2 ^ 32
      → 40 + sizeof_tcphdr
        ≤ (refresh sizeof_tcphdr bound (some mtu) p).mss_cache
          + (refresh sizeof_tcphdr bound (some mtu) p).tcp_header_len
      → let now = tcp_current_mss sizeof_tcphdr w bound (some mtu) r key p in
        now.1
          + (tcp_established_options w r key).size
          + sizeof_tcphdr
          + now.0.ext_hdr_len
          + now.0.net_header_len
        ≤ mtu
  unfolding tcp_current_mss
  tcp_current_mss-fits w mtu r key p h k o i v a c u m =
      adjusted (refresh sizeof_tcphdr bound (some mtu) p) (tcp_established_options w r key).size mtu
        (refresh-le mtu p v a c) (tcp_established_options-le w r key h k o i) u m
