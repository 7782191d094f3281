-- ===== src/Send/Options/Write/Parts.antt =====
-- The lengths of the first options that `tcp_options_write` of redhat_kernel/tcp_output.c writes, and
-- the lengths that all of them should have.
use starlink_tcp.Common.{
  ℕ, zero, suc, ◌+◌, ◌-◌, ◌*◌, ◌/◌, ◌%◌, ◌≡◌, arith, refl, Bool, true, false, not, ◌&&◌, List, [],
  Option, none, some, ◌==◌, if◌then◌else◌, length, length-append,
}
use starlink_tcp.Send.Options.{
  Wire, Byte, Cookie, AoKey, Mptcp, IsSized, cookie_need, Key, IsKey, no_key, md5, ao, OutOptions,
}
use starlink_tcp.Send.Options.Write.{
  quad, blank, memcpy, AoPeer, request, socket, mac_room, process_tcp_ao_options, key_bytes,
  SackBlock, block_bytes, cookie_tail,
}

abbrev pub key_len : Key → ℕ
key_len no_key = 0
key_len md5 = 20
key_len (ao k) = k.len_aligned

abbrev pub cookie_len : Wire → Bool → Option Cookie → ℕ
cookie_len w true (some c) = cookie_need w c
cookie_len w _ _ = 0

abbrev pub mptcp_len : Bool → Option Mptcp → ℕ
mptcp_len true (some m) = m.size
mptcp_len _ _ = 0

-- The TCP-AO peer is known.
abbrev pub is_ready : AoPeer → Bool
is_ready (socket none) = false
is_ready _ = true

abbrev pub OptSized : Option Mptcp → Type 0
OptSized none = Unit
OptSized (some m) = IsSized m

-- What the options take together, the key apart.
abbrev pub opts_len : Wire → OutOptions → ℕ
opts_len w o =
    (if o.mss == 0 then 0 else 4)
    + (if o.option_ts then 12 else 0)
    + (if o.option_sack_advertise && not o.option_ts then 4 else 0)
    + (if o.option_wscale then 4 else 0)
    + (if o.num_sack_blocks == 0 then 0 else 4 + 8 * o.num_sack_blocks)
    + cookie_len w o.option_fast_open_cookie o.fastopen_cookie
    + (if o.option_smc then 8 else 0)
    + mptcp_len o.option_mptcp o.mptcp

length-blank : (n : ℕ) → length (blank n) ≡ n
unfolding blank
length-blank zero = refl
length-blank (suc n) = omega (arith, length-blank n)

pub length-memcpy : (n : ℕ) (val : ℕ → ℕ) → length (memcpy n val) ≡ n
unfolding memcpy
length-memcpy zero val = refl
length-memcpy (suc n) val = omega (arith, length-memcpy n (λ i. val (suc i)))

pub length-block_bytes : (n : ℕ) (sp : ℕ → SackBlock) → length (block_bytes n sp) ≡ 8 * n
unfolding block_bytes
length-block_bytes zero sp = refl
length-block_bytes (suc n) sp = omega (arith, length-block_bytes n (λ i. sp (suc i)))

fill : Wire → AoKey → List Byte
fill w k =
    if k.maclen % 4 == 0 then [] else quad w.tcpopt_nop w.tcpopt_nop w.tcpopt_nop w.tcpopt_nop

length-fill : (w : Wire) (k : AoKey) → length (fill w k) ≡ (if k.maclen % 4 == 0 then 0 else 4)
unfolding fill
length-fill w k = ground arith

length-mac_room : (w : Wire) (k : AoKey) → length (mac_room w k) ≡ (k.maclen + 3) / 4 * 4
unfolding mac_room fill
length-mac_room w k =
    rw
      (
        length-append (blank (k.maclen / 4 * 4)) (fill w k),
        length-blank (k.maclen / 4 * 4),
        length-fill w k,
      )
      (ground arith)

pub length-key_bytes :
    (w : Wire) (key : Key) (peer : AoPeer)
    → IsKey key
    → is_ready peer ≡ true
    → length (key_bytes w key peer) ≡ key_len key
unfolding key_bytes process_tcp_ao_options
length-key_bytes w no_key peer h r = refl
length-key_bytes w md5 peer h r = omega (arith, length-blank 16)
length-key_bytes w (ao k) (request i n) h r = omega (arith, length-mac_room w k)
length-key_bytes w (ao k) (socket none) h r = grind arith
length-key_bytes w (ao k) (socket (some n)) h r = omega (arith, length-mac_room w k)

pub length-cookie_tail : (w : Wire) (len : ℕ) → length (cookie_tail w len) ≡ (len + 3) / 4 * 4 - len
unfolding cookie_tail
length-cookie_tail w len = ground (arith, length-blank ((len + 3) / 4 * 4 - len))
