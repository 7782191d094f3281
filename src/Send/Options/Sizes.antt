-- ===== src/Send/Options/Sizes.antt =====
-- `tcp_syn_options`, `tcp_synack_options` and `tcp_established_options` of
-- redhat_kernel/tcp_output.c: the options chosen, and their size.
pub mod Exact
use starlink_tcp.Common.{
  ℕ, ◌+◌, ◌*◌, ◌/◌, ◌%◌, ◌^◌, Bool, true, false, not, ◌&&◌, Option, none, some, ◌==◌, ltb, min,
  if◌then◌else◌, sub32,
}
use starlink_tcp.Send.Options.{
  Wire, Cookie, Mptcp, AoKey, Key, no_key, md5, ao, OutOptions, cleared, Build, set_cookie,
  smc_set_option, mptcp_set_option, Bpf, bpf_skops_hdr_opt_len,
}

-- The start: all of the room, and the options of the key.
unfoldable pub key_option : Wire → Key → Build
key_option w no_key = record { opts = cleared; remaining = w.max_tcp_option_space }
key_option w md5 = record {
  opts = record cleared { option_md5 = true };
  remaining = sub32 w.max_tcp_option_space w.tcpolen_md5sig_aligned;
}
key_option w (ao k) = record {
  opts = record cleared { option_ao = true };
  remaining = sub32 w.max_tcp_option_space k.len_aligned;
}

unfoldable pub set_mss : Wire → ℕ → Build → Build
set_mss w mss b = record {
  opts = record b.opts { mss = mss % 2 ^ 16 };
  remaining = sub32 b.remaining w.tcpolen_mss_aligned;
}

unfoldable pub set_timestamps : Wire → Bool → ℕ → ℕ → Build → Build
set_timestamps w false tsval tsecr b = b
set_timestamps w true tsval tsecr b = record {
  opts = record b.opts { option_ts = true; tsval = tsval; tsecr = tsecr };
  remaining = sub32 b.remaining w.tcpolen_tstamp_aligned;
}

unfoldable pub set_wscale : Wire → Bool → ℕ → Build → Build
set_wscale w false ws b = b
set_wscale w true ws b = record {
  opts = record b.opts { option_wscale = true; ws = ws };
  remaining = sub32 b.remaining w.tcpolen_wscale_aligned;
}

-- The permission to send SACK blocks takes the place of two NOPs of the timestamps, if there are
-- any.
unfoldable pub set_sack : Wire → Bool → Build → Build
set_sack w false b = b
set_sack w true b = record {
  opts = record b.opts { option_sack_advertise = true };
  remaining =
      if b.opts.option_ts then b.remaining else sub32 b.remaining w.tcpolen_sackperm_aligned;
}

-- What `tcp_syn_options` reads: the three sysctls, what `tcp_advertise_mss` returns, and the
-- socket, with the two bits that it sets. `tsval` is the sum of time and offset, `mptcp` what `mptcp_syn_options` gives.
pub record Syn : Type 0 where
  pub sysctl_tcp_timestamps : Bool
  pub sysctl_tcp_window_scaling : Bool
  pub sysctl_tcp_sack : Bool
  pub advertised_mss : ℕ
  pub tsval : ℕ
  pub ts_recent : ℕ
  pub rcv_wscale : ℕ
  pub fastopen : Option Cookie
  pub syn_fastopen : Bool
  pub syn_fastopen_exp : Bool
  pub syn_smc : Bool
  pub mptcp : Option Mptcp
  pub bpf : Bpf

abbrev pub is_md5 : Key → Bool
is_md5 md5 = true
is_md5 _ = false

abbrev pub is_exp : Option Cookie → Bool
is_exp none = false
is_exp (some c) = c.exp

unfoldable pub syn_base : Wire → Syn → Key → Build
unfolding key_option set_mss set_timestamps set_wscale set_sack
syn_base w s key = set_sack w s.sysctl_tcp_sack (
    set_wscale w s.sysctl_tcp_window_scaling s.rcv_wscale (
      set_timestamps w (not (is_md5 key) && s.sysctl_tcp_timestamps) s.tsval s.ts_recent
        (set_mss w s.advertised_mss (key_option w key))))

-- A cookie that is sent is noted in the socket.
note_cookie : OutOptions → Syn → Syn
note_cookie o s =
    if o.option_fast_open_cookie
    then record s { syn_fastopen = true; syn_fastopen_exp = is_exp o.fastopen_cookie }
    else s

-- The socket, the options, and the size.
unfoldable pub tcp_syn_options : Wire → Syn → Key → Syn × (OutOptions × ℕ)
unfolding syn_base set_cookie smc_set_option mptcp_set_option bpf_skops_hdr_opt_len note_cookie
tcp_syn_options w s key =
    let b = bpf_skops_hdr_opt_len s.bpf (
      mptcp_set_option s.mptcp
        (smc_set_option w s.syn_smc (set_cookie w s.fastopen (syn_base w s key)))) in
    (note_cookie b.opts s, (b.opts, sub32 w.max_tcp_option_space b.remaining))

-- The request that a SYN-ACK answers.
pub record Request : Type 0 where
  pub wscale_ok : Bool
  pub tstamp_ok : Bool
  pub sack_ok : Bool
  pub smc_ok : Bool
  pub rcv_wscale : ℕ
  pub ts_recent : ℕ
  pub tsval : ℕ
  pub mptcp : Option Mptcp

-- With a key, SACK excludes the timestamps: not for a cookie with an MD5 key.
unfoldable pub keep_tstamp : Key → Bool → Request → Request
keep_tstamp no_key cookie r = r
keep_tstamp md5 cookie r =
    if cookie then r else record r { tstamp_ok = r.tstamp_ok && not r.sack_ok }
keep_tstamp (ao k) cookie r = record r { tstamp_ok = r.tstamp_ok && not r.sack_ok }

unfoldable pub synack_base : Wire → Request → ℕ → Key → Build
unfolding key_option set_mss set_timestamps set_wscale set_sack
synack_base w r mss key = set_sack w r.sack_ok (
    set_timestamps w r.tstamp_ok r.tsval r.ts_recent
      (set_wscale w r.wscale_ok r.rcv_wscale (set_mss w mss (key_option w key))))

unfoldable pub synack_rest : Wire → Option Cookie → Bool → Bpf → Request → Build → OutOptions × ℕ
unfolding set_cookie smc_set_option mptcp_set_option bpf_skops_hdr_opt_len
synack_rest w foc syn_smc bpf r b =
    let full =
      bpf_skops_hdr_opt_len bpf
        (smc_set_option w (syn_smc && r.smc_ok) (mptcp_set_option r.mptcp (set_cookie w foc b))) in
    (full.opts, sub32 w.max_tcp_option_space full.remaining)

-- The request too, whose `tstamp_ok` it may clear; `cookie` is `TCP_SYNACK_COOKIE`.
unfoldable pub tcp_synack_options :
    Wire → Request → ℕ → Key → Option Cookie → Bool → Bool → Bpf → Request × (OutOptions × ℕ)
unfolding keep_tstamp synack_base synack_rest
tcp_synack_options w req mss key foc cookie syn_smc bpf =
    let r = keep_tstamp key cookie req in
    (r, synack_rest w foc syn_smc bpf r (synack_base w r mss key))
