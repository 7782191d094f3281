-- ===== src/Send/Mss/Inverse.antt =====
-- The conversions between MTU and MSS of redhat_kernel/tcp_output.c in plain numbers, and back.
use starlink_tcp.Common.{ℕ, ◌+◌, ◌-◌, ◌≤◌, ◌≡◌, arith, ap, ◌∙◌, min, max}
use starlink_tcp.Common.Int.{ℤ, pos, negsuc, ◌+ℤ◌, ◌-ℤ◌, pos_part, sub-pos}
use starlink_tcp.Send.Mss.{Route, mtu_to_mss, tcp_mtu_to_mss, tcp_mss_to_mtu, max_ℤ, min_ℤ}

pos_part-sub : (x : ℤ) (b : ℕ) → pos_part (x -ℤ pos b) ≡ pos_part x - b
pos_part-sub (pos n) b = ground arith
pos_part-sub (negsuc n) b = ground arith

pos_part-min : (x : ℤ) (c : ℕ) → pos_part (min_ℤ x (pos c)) ≡ min (pos_part x) c
pos_part-min (pos n) c = ground arith
pos_part-min (negsuc n) c = ground arith

max-pos : (x : ℤ) (m : ℕ) → max_ℤ x (pos m) ≡ pos (max (pos_part x) m)
max-pos (pos n) m = ground arith
max-pos (negsuc n) m = ground arith

add-pos : (a b : ℕ) → (pos a +ℤ pos b) ≡ pos (a + b)
add-pos a b = ground arith

-- The MSS of an MTU in plain numbers, without and with the usual options.
abbrev pub base_mss_of : ℕ → Route → ℕ → ℕ
base_mss_of sizeof_tcphdr p pmtu =
    max (min (pmtu - p.net_header_len - sizeof_tcphdr) p.mss_clamp - p.ext_hdr_len) p.min_snd_mss

abbrev pub mss_of : ℕ → Route → ℕ → ℕ
mss_of sizeof_tcphdr p pmtu = base_mss_of sizeof_tcphdr p pmtu - (p.tcp_header_len - sizeof_tcphdr)

-- The usual options leave room in the smallest MSS.
pub record IsRoute (sizeof_tcphdr : ℕ) (p : Route) : Type 0 where
  pub header : sizeof_tcphdr ≤ p.tcp_header_len
  pub room : p.tcp_header_len ≤ sizeof_tcphdr + p.min_snd_mss

mtu_to_mss-pos :
    (sizeof_tcphdr : ℕ) (p : Route) (pmtu : ℤ)
    → mtu_to_mss sizeof_tcphdr p pmtu ≡ pos (base_mss_of sizeof_tcphdr p (pos_part pmtu))
unfolding mtu_to_mss
mtu_to_mss-pos sizeof_tcphdr p pmtu =
    let net : ℤ = pmtu -ℤ pos p.net_header_len in
    let mms : ℤ = net -ℤ pos sizeof_tcphdr in
    max-pos (min_ℤ mms (pos p.mss_clamp) -ℤ pos p.ext_hdr_len) p.min_snd_mss
    ∙ ap (λ n. pos (max n p.min_snd_mss))
        (pos_part-sub (min_ℤ mms (pos p.mss_clamp)) p.ext_hdr_len
          ∙ ap (λ n. n - p.ext_hdr_len)
              (pos_part-min mms p.mss_clamp
                ∙ ap (λ n. min n p.mss_clamp)
                    (pos_part-sub net sizeof_tcphdr
                      ∙ ap (λ n. n - sizeof_tcphdr) (pos_part-sub pmtu p.net_header_len))))

pub tcp_mtu_to_mss-pos :
    (sizeof_tcphdr : ℕ) (p : Route) (pmtu : ℤ)
    → IsRoute sizeof_tcphdr p
    → tcp_mtu_to_mss sizeof_tcphdr p pmtu ≡ pos (mss_of sizeof_tcphdr p (pos_part pmtu))
unfolding tcp_mtu_to_mss
tcp_mtu_to_mss-pos sizeof_tcphdr p pmtu v =
    rw (mtu_to_mss-pos sizeof_tcphdr p pmtu, sub-pos p.tcp_header_len sizeof_tcphdr v.header)
      (sub-pos (base_mss_of sizeof_tcphdr p (pos_part pmtu)) (p.tcp_header_len - sizeof_tcphdr)
        (omega arith))

tcp_mss_to_mtu-pos :
    (sizeof_tcphdr : ℕ) (p : Route) (mss : ℕ)
    → tcp_mss_to_mtu sizeof_tcphdr p (pos mss)
      ≡ pos (mss + p.tcp_header_len + p.ext_hdr_len + p.net_header_len)
unfolding tcp_mss_to_mtu
tcp_mss_to_mtu-pos sizeof_tcphdr p mss =
    rw (add-pos mss p.tcp_header_len, add-pos (mss + p.tcp_header_len) p.ext_hdr_len)
      (add-pos (mss + p.tcp_header_len + p.ext_hdr_len) p.net_header_len)

-- `tcp_mtu_to_mss` inverts `tcp_mss_to_mtu`: an MSS that, with the usual options, is neither above
-- the clamp nor below the smallest MSS of the sysctl comes back from its own MTU.
pub tcp_mtu_to_mss-tcp_mss_to_mtu :
    (sizeof_tcphdr : ℕ) (p : Route) (mss : ℕ)
    → IsRoute sizeof_tcphdr p
    → mss + p.tcp_header_len + p.ext_hdr_len ≤ p.mss_clamp + sizeof_tcphdr
    → p.min_snd_mss + sizeof_tcphdr ≤ mss + p.tcp_header_len
    → tcp_mtu_to_mss sizeof_tcphdr p (tcp_mss_to_mtu sizeof_tcphdr p (pos mss)) ≡ pos mss
tcp_mtu_to_mss-tcp_mss_to_mtu sizeof_tcphdr p mss v k l =
    rw (tcp_mss_to_mtu-pos sizeof_tcphdr p mss) (
      tcp_mtu_to_mss-pos sizeof_tcphdr p
        (pos (mss + p.tcp_header_len + p.ext_hdr_len + p.net_header_len)) v
      ∙ ap pos (omega arith))
