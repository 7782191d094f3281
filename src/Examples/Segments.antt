-- ===== src/Examples/Segments.antt =====
-- Runs of the sender's code of redhat_kernel/tcp_output.c.
use starlink_tcp.Common.{ℕ, ◌-◌, none, some, true, false, refl, arith}
use starlink_tcp.Common.Int.{pos}
use starlink_tcp.Send.Options.{
  Wire, IsWire, Cookie, AoKey, no_key, md5, ao, OutOptions, Bpf, IsBpf, cookie_need, cookie_fits,
  set_cookie, smc_set_option, mptcp_set_option, bpf_reserve, bpf_skops_hdr_opt_len,
}
use starlink_tcp.Send.Options.Sizes.{
  Syn, Request, key_option, set_mss, set_timestamps, set_wscale, set_sack, syn_base,
  tcp_syn_options, keep_tstamp, synack_base, synack_rest, tcp_synack_options,
}
use starlink_tcp.Send.Options.Sizes.Exact.{
  IsExact, tcp_syn_options-IsExact, tcp_synack_options-IsExact,
}
use starlink_tcp.Send.Options.Established.{Running, tcp_established_options}
use starlink_tcp.Send.Options.Established.Exact.{IsPolite, tcp_established_options-IsExact}
use starlink_tcp.Send.Options.Write.{request, socket, SackBlock, Sacks}

-- The numbers of the RFCs.
abbrev pub wire : Wire
wire = record {
  max_tcp_option_space = 40;
  tcpolen_md5sig_aligned = 20;
  tcpolen_mss_aligned = 4;
  tcpolen_tstamp_aligned = 12;
  tcpolen_wscale_aligned = 4;
  tcpolen_sackperm_aligned = 4;
  tcpolen_sack_base_aligned = 4;
  tcpolen_sack_perblock = 8;
  tcpolen_exp_fastopen_base = 4;
  tcpolen_fastopen_base = 2;
  tcpolen_exp_smc_base_aligned = 8;
  tcpolen_md5sig = 18;
  tcpolen_mss = 4;
  tcpolen_timestamp = 10;
  tcpolen_sack_perm = 2;
  tcpolen_window = 3;
  tcpolen_sack_base = 2;
  tcpolen_exp_smc_base = 6;
  tcpopt_nop = 1;
  tcpopt_md5sig = 19;
  tcpopt_ao = 29;
  tcpopt_mss = 2;
  tcpopt_sack_perm = 4;
  tcpopt_timestamp = 8;
  tcpopt_window = 3;
  tcpopt_sack = 5;
  tcpopt_exp = 254;
  tcpopt_fastopen = 34;
  tcpopt_fastopen_magic = 0xF989;
  tcpopt_smc_magic = 0xE2D4C3D9;
}

pub wire-IsWire : IsWire wire
wire-IsWire = omega arith

-- A program that takes three bytes of the room.
abbrev pub three : Bpf
three = record { write_hdr_opt = true; run = λ room. some (room - 3) }

pub three-IsBpf : IsBpf three
three-IsBpf = record { reserves = λ room left e. ground arith }

abbrev block : SackBlock
block = record { start_seq = 1_000; end_seq = 2_000 }

abbrev sacks : Sacks
sacks = record { dsack = 1; duplicate_sack = λ i. block; selective_acks = λ i. block }

abbrev cookie : Cookie
cookie = record { exp = false; len = pos 8; val = λ i. i }

abbrev syn : Syn
syn = record {
  sysctl_tcp_timestamps = true;
  sysctl_tcp_window_scaling = true;
  sysctl_tcp_sack = true;
  advertised_mss = 1_460;
  tsval = 7;
  ts_recent = 0;
  rcv_wscale = 7;
  fastopen = some cookie;
  syn_fastopen = false;
  syn_fastopen_exp = false;
  syn_smc = false;
  mptcp = none;
  bpf = three;
}

tcp_syn_options-IsExact_example :
    IsExact wire no_key
      (tcp_syn_options wire syn no_key).1.0
      (tcp_syn_options wire syn no_key).1.1
      (request 0 0)
      sacks
unfolding tcp_syn_options syn_base key_option set_mss set_timestamps set_wscale set_sack set_cookie
    cookie_fits cookie_need smc_set_option mptcp_set_option bpf_skops_hdr_opt_len bpf_reserve
tcp_syn_options-IsExact_example =
    tcp_syn_options-IsExact wire syn no_key (request 0 0) sacks wire-IsWire tt refl (omega arith)
      (omega arith) tt three-IsBpf refl

-- A request with every option, answered with an MD5 key.
abbrev req : Request
req = record {
  wscale_ok = true;
  tstamp_ok = true;
  sack_ok = true;
  smc_ok = true;
  rcv_wscale = 7;
  ts_recent = 3;
  tsval = 7;
  mptcp = none;
}

abbrev synack : Request × (OutOptions × ℕ)
synack = tcp_synack_options wire req 1_460 md5 (some cookie) false true three

tcp_synack_options-IsExact_example : IsExact wire md5 synack.1.0 synack.1.1 (request 0 0) sacks
unfolding tcp_synack_options synack_rest synack_base keep_tstamp key_option set_mss set_timestamps
    set_wscale set_sack set_cookie cookie_fits cookie_need smc_set_option mptcp_set_option
    bpf_skops_hdr_opt_len bpf_reserve
tcp_synack_options-IsExact_example =
    tcp_synack_options-IsExact wire req 1_460 md5 (some cookie) false true three (request 0 0) sacks
      wire-IsWire tt refl (omega arith) (omega arith) tt three-IsBpf refl

-- Timestamps, a key of 16 bytes, and more SACK blocks than fit.
abbrev pub run : Running
run = record {
  tstamp_ok = true;
  tsval = 7;
  ts_recent = 3;
  mptcp = λ room. none;
  num_sacks = 3;
  dsack = 1;
  bpf = three;
}

pub run-IsPolite : IsPolite run.mptcp
run-IsPolite = record { sized = λ room. tt; fits = λ room m e. cc }

abbrev pub ao_key : AoKey
ao_key = record { maclen = 10; len = 14; len_aligned = 16; sndid = 1 }

tcp_established_options-IsExact_example :
    IsExact wire
      (ao ao_key)
      (tcp_established_options wire run (ao ao_key)).opts
      (tcp_established_options wire run (ao ao_key)).size
      (socket (some 2))
      sacks
tcp_established_options-IsExact_example =
    tcp_established_options-IsExact wire run (ao ao_key) (socket (some 2)) sacks wire-IsWire
      (omega arith) refl run-IsPolite three-IsBpf
