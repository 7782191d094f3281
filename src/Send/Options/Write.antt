-- ===== src/Send/Options/Write.antt =====
-- `tcp_options_write` of redhat_kernel/tcp_output.c: the bytes of the options.
pub mod Parts
pub mod Length
use starlink_tcp.Common.{
  ℕ, zero, suc, ◌+◌, ◌-◌, ◌*◌, ◌/◌, ◌%◌, ◌^◌, Bool, true, false, not, ◌&&◌, ◌||◌, List, [], ◌∷◌,
  ◌++◌, Option, none, some, ◌==◌, if◌then◌else◌, length, drop,
}
use starlink_tcp.Common.Int.{pos_part}
use starlink_tcp.Send.Options.{Wire, Cookie, Byte, Mptcp, AoKey, Key, no_key, md5, ao, OutOptions}

-- A word, the most significant byte first.
abbrev pub htonl : ℕ → List Byte
htonl n =
    some (n / 2 ^ 24 % 256) ∷ some (n / 2 ^ 16 % 256) ∷ some (n / 2 ^ 8 % 256) ∷ some (n % 256) ∷ []

-- `(a << 24) | (b << 16) | (c << 8) | d`, of bytes.
abbrev pub quad : ℕ → ℕ → ℕ → ℕ → List Byte
quad a b c d = htonl (a * 2 ^ 24 + b * 2 ^ 16 + c * 2 ^ 8 + d)

-- `n` bytes that are passed over.
pub blank : ℕ → List Byte
blank zero = []
blank (suc n) = none ∷ blank n

-- `memcpy` of the first bytes of an array.
pub memcpy : ℕ → (ℕ → ℕ) → List Byte
memcpy zero val = []
memcpy (suc n) val = some (val 0 % 256) ∷ memcpy n (λ i. val (suc i))

-- The other side of TCP-AO: a request, or the socket's `rnext_key`, `none` if it is NULL.
pub data AoPeer : Type 0 where
  request : (ao_keyid ao_rcv_next : ℕ) → AoPeer
  socket : (rcvid : Option ℕ) → AoPeer

-- The room of the MAC, whose last, broken word is filled up.
pub mac_room : Wire → AoKey → List Byte
unfolding blank
mac_room w k =
    blank (k.maclen / 4 * 4)
    ++ (if k.maclen % 4 == 0 then [] else quad w.tcpopt_nop w.tcpopt_nop w.tcpopt_nop w.tcpopt_nop)

-- `process_tcp_ao_options`; without an `rnext_key` it writes nothing.
pub process_tcp_ao_options : Wire → AoKey → AoPeer → List Byte
unfolding mac_room
process_tcp_ao_options w k (request ao_keyid ao_rcv_next) =
    quad w.tcpopt_ao ((k.maclen + 4) % 256) ao_keyid ao_rcv_next ++ mac_room w k
process_tcp_ao_options w k (socket none) = []
process_tcp_ao_options w k (socket (some rcvid)) =
    quad w.tcpopt_ao k.len k.sndid rcvid ++ mac_room w k

pub key_bytes : Wire → Key → AoPeer → List Byte
unfolding process_tcp_ao_options blank
key_bytes w no_key peer = []
key_bytes w md5 peer = quad w.tcpopt_nop w.tcpopt_nop w.tcpopt_md5sig w.tcpolen_md5sig ++ blank 16
key_bytes w (ao k) peer = process_tcp_ao_options w k peer

pub mss_bytes : Wire → OutOptions → List Byte
mss_bytes w o =
    if o.mss == 0 then [] else htonl (w.tcpopt_mss * 2 ^ 24 + w.tcpolen_mss * 2 ^ 16 + o.mss)

-- SACK_PERM, where it is asked for, stands in the word of the timestamps.
pub timestamp_bytes : Wire → OutOptions → List Byte
timestamp_bytes w o =
    if o.option_ts
    then (if o.option_sack_advertise
        then quad w.tcpopt_sack_perm w.tcpolen_sack_perm w.tcpopt_timestamp w.tcpolen_timestamp
        else quad w.tcpopt_nop w.tcpopt_nop w.tcpopt_timestamp w.tcpolen_timestamp)
      ++ (htonl o.tsval ++ htonl o.tsecr)
    else []

pub sackperm_bytes : Wire → OutOptions → List Byte
sackperm_bytes w o =
    if o.option_sack_advertise && not o.option_ts
    then quad w.tcpopt_nop w.tcpopt_nop w.tcpopt_sack_perm w.tcpolen_sack_perm
    else []

pub wscale_bytes : Wire → OutOptions → List Byte
wscale_bytes w o =
    if o.option_wscale then quad w.tcpopt_nop w.tcpopt_window w.tcpolen_window o.ws else []

-- `struct tcp_sack_block`, and the loop over the array of them.
pub record SackBlock : Type 0 where
  pub start_seq : ℕ
  pub end_seq : ℕ

-- The SACK state of the socket.
pub record Sacks : Type 0 where
  pub dsack : ℕ
  pub duplicate_sack : ℕ → SackBlock
  pub selective_acks : ℕ → SackBlock

pub block_bytes : ℕ → (ℕ → SackBlock) → List Byte
block_bytes zero sp = []
block_bytes (suc n) sp =
    htonl (sp 0).start_seq ++ (htonl (sp 0).end_seq ++ block_bytes n (λ i. sp (suc i)))

pub sack_bytes : Wire → OutOptions → Sacks → List Byte
unfolding block_bytes
sack_bytes w o sacks =
    if o.num_sack_blocks == 0
    then []
    else quad w.tcpopt_nop w.tcpopt_nop w.tcpopt_sack
        (w.tcpolen_sack_base + o.num_sack_blocks * w.tcpolen_sack_perblock)
      ++ block_bytes o.num_sack_blocks
          (if sacks.dsack == 0 then sacks.selective_acks else sacks.duplicate_sack)

-- The cookie as an experimental option, or with the kind of its own.
abbrev pub cookie_head : Wire → Cookie → ℕ → List Byte
cookie_head w c len =
    if c.exp
    then htonl (w.tcpopt_exp * 2 ^ 24 + len * 2 ^ 16 + w.tcpopt_fastopen_magic)
    else some w.tcpopt_fastopen ∷ some (len % 256) ∷ []

-- Two NOPs after it if that makes a word; else what is missing to one is passed over.
pub cookie_tail : Wire → ℕ → List Byte
unfolding blank
cookie_tail w len =
    if len % 4 == 2
    then some w.tcpopt_nop ∷ some w.tcpopt_nop ∷ []
    else blank ((len + 3) / 4 * 4 - len)

pub cookie_bytes : Wire → Bool → Option Cookie → List Byte
unfolding memcpy cookie_tail
cookie_bytes w true (some c) =
    let len =
      (if c.exp then w.tcpolen_exp_fastopen_base else w.tcpolen_fastopen_base) + pos_part c.len in
    cookie_head w c len ++ (memcpy (pos_part c.len) c.val ++ cookie_tail w len)
cookie_bytes w _ _ = []

pub smc_options_write : Wire → OutOptions → List Byte
smc_options_write w o =
    if o.option_smc
    then quad w.tcpopt_nop w.tcpopt_nop w.tcpopt_exp w.tcpolen_exp_smc_base
      ++ htonl w.tcpopt_smc_magic
    else []

pub mptcp_options_write : Bool → Option Mptcp → List Byte
mptcp_options_write true (some m) = m.bytes
mptcp_options_write _ _ = []

-- `smc_options_write` leaves `ptr` where it was, so that MPTCP writes over it.
pub over : List Byte → List Byte → List Byte
over below above = above ++ drop (length above) below

-- The bytes written, and the `dsack` of the socket, which a SACK option uses up.
pub tcp_options_write : Wire → Key → AoPeer → Sacks → OutOptions → List Byte × ℕ
unfolding key_bytes mss_bytes timestamp_bytes sackperm_bytes wscale_bytes sack_bytes cookie_bytes
    smc_options_write mptcp_options_write over
tcp_options_write w key peer sacks o = (
  key_bytes w key peer
      ++ (mss_bytes w o
          ++ (timestamp_bytes w o
              ++ (sackperm_bytes w o
                  ++ (wscale_bytes w o
                      ++ (sack_bytes w o sacks
                          ++ (cookie_bytes w o.option_fast_open_cookie o.fastopen_cookie
                              ++ over (smc_options_write w o)
                                  (mptcp_options_write o.option_mptcp o.mptcp))))))),
  if o.num_sack_blocks == 0 then sacks.dsack else 0,
)
