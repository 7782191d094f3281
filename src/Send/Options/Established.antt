-- ===== src/Send/Options/Established.antt =====
-- `tcp_established_options` of redhat_kernel/tcp_output.c: the options of a segment of a running
-- connection, and their size.
pub mod Exact
use starlink_tcp.Common.{
  ℕ, ◌+◌, ◌-◌, ◌*◌, ◌/◌, ◌%◌, Bool, true, false, Option, none, some, ◌==◌, ltb, min, if◌then◌else◌,
  sub32, add32,
}
use starlink_tcp.Send.Options.{
  Wire, Mptcp, AoKey, Key, no_key, md5, ao, OutOptions, cleared, Build, Bpf, bpf_skops_hdr_opt_len,
}

-- What the function reads. `mptcp` is `mptcp_established_options`, at the room that is left.
pub record Running : Type 0 where
  pub tstamp_ok : Bool
  pub tsval : ℕ
  pub ts_recent : ℕ
  pub mptcp : ℕ → Option Mptcp
  pub num_sacks : ℕ
  pub dsack : ℕ
  pub bpf : Bpf

-- The options so far, and `size`.
pub record Sized : Type 0 where
  pub opts : OutOptions
  pub size : ℕ

pub key_size : Wire → Key → Sized
key_size w no_key = record { opts = cleared; size = 0 }
key_size w md5 = record {
  opts = record cleared { option_md5 = true };
  size = w.tcpolen_md5sig_aligned;
}
key_size w (ao k) = record { opts = record cleared { option_ao = true }; size = k.len_aligned }

pub add_timestamps : Wire → Bool → ℕ → ℕ → Sized → Sized
add_timestamps w false tsval tsecr s = s
add_timestamps w true tsval tsecr s = record {
  opts = record s.opts { option_ts = true; tsval = tsval; tsecr = tsecr };
  size = s.size + w.tcpolen_tstamp_aligned;
}

pub add_mptcp : Option Mptcp → Sized → Sized
add_mptcp none s = s
add_mptcp (some m) s = record {
  opts = record s.opts { option_mptcp = true; mptcp = some m };
  size = add32 s.size m.size;
}

-- As many SACK blocks as fit; `num_sack_blocks` is a byte.
abbrev pub sack_blocks : Wire → ℕ → ℕ → ℕ
sack_blocks w eff_sacks remaining =
    min eff_sacks ((remaining - w.tcpolen_sack_base_aligned) / w.tcpolen_sack_perblock) % 256

pub add_sacks : Wire → ℕ → ℕ → Sized → Sized
add_sacks w eff_sacks remaining s = record {
  opts = record s.opts { num_sack_blocks = sack_blocks w eff_sacks remaining };
  size =
      s.size
      + (w.tcpolen_sack_base_aligned + sack_blocks w eff_sacks remaining * w.tcpolen_sack_perblock);
}

pub add_bpf : Wire → Bpf → Sized → Sized
unfolding bpf_skops_hdr_opt_len
add_bpf w p s =
    let b =
      bpf_skops_hdr_opt_len p
        (record { opts = s.opts; remaining = sub32 w.max_tcp_option_space s.size }) in
    if p.write_hdr_opt
    then record { opts = b.opts; size = sub32 w.max_tcp_option_space b.remaining }
    else s

-- `return size` where not even one SACK block fits.
pub finish : Wire → Running → Sized → Sized
unfolding add_sacks add_bpf
finish w r s =
    let eff_sacks = r.num_sacks + r.dsack in
    let remaining = sub32 w.max_tcp_option_space s.size in
    if eff_sacks == 0
    then add_bpf w r.bpf s
    else if ltb remaining (w.tcpolen_sack_base_aligned + w.tcpolen_sack_perblock)
    then s
    else add_bpf w r.bpf (add_sacks w eff_sacks remaining s)

abbrev pub established_base : Wire → Running → Key → Sized
established_base w r key = add_timestamps w r.tstamp_ok r.tsval r.ts_recent (key_size w key)

pub tcp_established_options : Wire → Running → Key → Sized
unfolding key_size add_timestamps add_mptcp finish
tcp_established_options w r key =
    let base = established_base w r key in
    finish w r (add_mptcp (r.mptcp (sub32 w.max_tcp_option_space base.size)) base)
