-- ===== src/Send/Options.antt =====
-- The TCP options of an outgoing segment, redhat_kernel/tcp_output.c: what the three functions that
-- choose them share.
pub mod Sizes
pub mod Established
pub mod Write
pub mod Balance
use starlink_tcp.Common.{
  ℕ, ◌+◌, ◌*◌, ◌/◌, ◌%◌, ◌≤◌, ◌≡◌, Bool, true, false, not, ◌&&◌, ◌||◌, List, Option, none, some,
  ◌==◌, leb, if◌then◌else◌, sub32, length,
}
use starlink_tcp.Common.Int.{ℤ, pos, leb_ℤ, pos_part}

-- The constants of the kernel's headers: lengths (TCPOLEN_*, MAX_TCP_OPTION_SPACE) and kinds
-- (TCPOPT_*).
pub record Wire : Type 0 where
  pub max_tcp_option_space : ℕ
  pub tcpolen_md5sig_aligned : ℕ
  pub tcpolen_mss_aligned : ℕ
  pub tcpolen_tstamp_aligned : ℕ
  pub tcpolen_wscale_aligned : ℕ
  pub tcpolen_sackperm_aligned : ℕ
  pub tcpolen_sack_base_aligned : ℕ
  pub tcpolen_sack_perblock : ℕ
  pub tcpolen_exp_fastopen_base : ℕ
  pub tcpolen_fastopen_base : ℕ
  pub tcpolen_exp_smc_base_aligned : ℕ
  pub tcpolen_md5sig : ℕ
  pub tcpolen_mss : ℕ
  pub tcpolen_timestamp : ℕ
  pub tcpolen_sack_perm : ℕ
  pub tcpolen_window : ℕ
  pub tcpolen_sack_base : ℕ
  pub tcpolen_exp_smc_base : ℕ
  pub tcpopt_nop : ℕ
  pub tcpopt_md5sig : ℕ
  pub tcpopt_ao : ℕ
  pub tcpopt_mss : ℕ
  pub tcpopt_sack_perm : ℕ
  pub tcpopt_timestamp : ℕ
  pub tcpopt_window : ℕ
  pub tcpopt_sack : ℕ
  pub tcpopt_exp : ℕ
  pub tcpopt_fastopen : ℕ
  pub tcpopt_fastopen_magic : ℕ
  pub tcpopt_smc_magic : ℕ

-- The lengths that RFC 793, 7323, 2018, 2385 and 7413 give, padded to words.
pub record IsWire (w : Wire) : Type 0 where
  pub space : w.max_tcp_option_space ≡ 40
  pub md5sig : w.tcpolen_md5sig_aligned ≡ 20
  pub mss : w.tcpolen_mss_aligned ≡ 4
  pub tstamp : w.tcpolen_tstamp_aligned ≡ 12
  pub wscale : w.tcpolen_wscale_aligned ≡ 4
  pub sackperm : w.tcpolen_sackperm_aligned ≡ 4
  pub sack_base : w.tcpolen_sack_base_aligned ≡ 4
  pub sack_perblock : w.tcpolen_sack_perblock ≡ 8
  pub exp_fastopen : w.tcpolen_exp_fastopen_base ≡ 4
  pub fastopen : w.tcpolen_fastopen_base ≡ 2
  pub exp_smc : w.tcpolen_exp_smc_base_aligned ≡ 8

-- `struct tcp_fastopen_cookie`; the array `val` is a function.
pub record Cookie : Type 0 where
  pub exp : Bool
  pub len : ℤ  -- s8
  pub val : ℕ → ℕ

-- A byte of the header, or one that is left as it was.
abbrev pub Byte : Type 0
Byte = Option ℕ

-- `struct mptcp_out_options`: the size that MPTCP announces, and what `mptcp_write_options` writes.
pub record Mptcp : Type 0 where
  pub size : ℕ
  pub bytes : List Byte

-- It writes what it announced, in whole words.
pub record IsSized (m : Mptcp) : Type 0 where
  pub writes : length m.bytes ≡ m.size
  pub words : m.size % 4 ≡ 0

-- `tcp_ao_maclen`, `tcp_ao_len_aligned` and `sndid` of a TCP-AO key.
pub record AoKey : Type 0 where
  pub maclen : ℕ
  pub len : ℕ
  pub len_aligned : ℕ
  pub sndid : ℕ

-- The header of four bytes and the MAC, padded; a key is refused if it leaves a SYN no room.
pub record IsAoKey (k : AoKey) : Type 0 where
  pub length : k.len_aligned ≡ (k.maclen + 7) / 4 * 4
  pub room : k.len_aligned ≤ 20

-- `struct tcp_key`
pub data Key : Type 0 where
  no_key md5 : Key
  ao : AoKey → Key

abbrev pub IsKey : Key → Type 0
IsKey (ao k) = IsAoKey k
IsKey _ = Unit

-- `struct tcp_out_options`; the bit OPTION_X of `options` is the field `option_x`. `hash_location`
-- is not kept: it is where the bytes that are left open start.
pub record OutOptions : Type 0 where
  pub option_sack_advertise : Bool
  pub option_ts : Bool
  pub option_md5 : Bool
  pub option_wscale : Bool
  pub option_fast_open_cookie : Bool
  pub option_smc : Bool
  pub option_mptcp : Bool
  pub option_ao : Bool
  pub mss : ℕ
  pub ws : ℕ
  pub num_sack_blocks : ℕ
  pub bpf_opt_len : ℕ
  pub tsval : ℕ
  pub tsecr : ℕ
  pub fastopen_cookie : Option Cookie
  pub mptcp : Option Mptcp

-- The callers clear the structure.
abbrev pub cleared : OutOptions
cleared = record {
  option_sack_advertise = false;
  option_ts = false;
  option_md5 = false;
  option_wscale = false;
  option_fast_open_cookie = false;
  option_smc = false;
  option_mptcp = false;
  option_ao = false;
  mss = 0;
  ws = 0;
  num_sack_blocks = 0;
  bpf_opt_len = 0;
  tsval = 0;
  tsecr = 0;
  fastopen_cookie = none;
  mptcp = none;
}

-- The options chosen so far, and the bytes left: `opts` and `remaining`.
pub record Build : Type 0 where
  pub opts : OutOptions
  pub remaining : ℕ

-- The room of a cookie, in whole words.
unfoldable pub cookie_need : Wire → Cookie → ℕ
cookie_need w c =
    (pos_part c.len + (if c.exp then w.tcpolen_exp_fastopen_base else w.tcpolen_fastopen_base) + 3)
    / 4
    * 4

-- `foc != NULL && foc->len >= 0`, and room for it.
unfoldable pub cookie_fits : Wire → Option Cookie → ℕ → Bool
unfolding cookie_need
cookie_fits w none remaining = false
cookie_fits w (some c) remaining = leb_ℤ (pos 0) c.len && leb (cookie_need w c) remaining

unfoldable pub set_cookie : Wire → Option Cookie → Build → Build
unfolding cookie_need cookie_fits
set_cookie w none b = b
set_cookie w (some c) b =
    if cookie_fits w (some c) b.remaining
    then record {
      opts = record b.opts { option_fast_open_cookie = true; fastopen_cookie = some c };
      remaining = sub32 b.remaining (cookie_need w c);
    }
    else b

-- `smc_set_option`, and `smc_set_option_cond`, whose `wanted` has `ireq->smc_ok` too.
unfoldable pub smc_set_option : Wire → Bool → Build → Build
smc_set_option w wanted b =
    if wanted && leb w.tcpolen_exp_smc_base_aligned b.remaining
    then record {
      opts = record b.opts { option_smc = true };
      remaining = sub32 b.remaining w.tcpolen_exp_smc_base_aligned;
    }
    else b

-- `none` is a socket without MPTCP, or no option of it.
unfoldable pub mptcp_set_option : Option Mptcp → Build → Build
mptcp_set_option none b = b
mptcp_set_option (some m) b =
    if leb m.size b.remaining
    then record {
      opts = record b.opts { option_mptcp = true; mptcp = some m };
      remaining = sub32 b.remaining m.size;
    }
    else record b { opts = record b.opts { mptcp = some m } }

-- The BPF program of the socket: whether it has one that writes options, and what it leaves of the
-- room that it is given (`none` is an error).
pub record Bpf : Type 0 where
  pub write_hdr_opt : Bool
  pub run : ℕ → Option ℕ

-- The helpers of BPF only reserve what there is.
pub record IsBpf (p : Bpf) : Type 0 where
  pub reserves : (remaining left : ℕ) → p.run remaining ≡ some left → left ≤ remaining

unfoldable pub bpf_reserve : Option ℕ → Build → Build
bpf_reserve none b = b
bpf_reserve (some left) b =
    let opt_len = (sub32 b.remaining left % 256 + 3) / 4 * 4 % 256 in
    if left == b.remaining then b else record {
      opts = record b.opts { bpf_opt_len = opt_len };
      remaining = sub32 b.remaining opt_len;
    }

unfoldable pub bpf_skops_hdr_opt_len : Bpf → Build → Build
unfolding bpf_reserve
bpf_skops_hdr_opt_len p b =
    if not p.write_hdr_opt || b.remaining == 0 then b else bpf_reserve (p.run b.remaining) b
