-- ===== src/Send/Options/Sizes/Exact.antt =====
-- The size that `tcp_syn_options` and `tcp_synack_options` of redhat_kernel/tcp_output.c announce.
use starlink_tcp.Common.{
  ℕ, ◌+◌, ◌%◌, ◌^◌, ◌≡◌, ◌≤◌, ◌<◌, arith, refl, ◌∙◌, sym, subst, Bool, true, false, ◌&&◌, Option,
  sub32, length,
}
use starlink_tcp.Send.Options.{
  Wire, IsWire, Cookie, Mptcp, Key, IsKey, no_key, md5, ao, OutOptions, Build, set_cookie,
  smc_set_option, mptcp_set_option, Bpf, IsBpf, bpf_skops_hdr_opt_len,
}
use starlink_tcp.Send.Options.Sizes.{
  Syn, key_option, set_mss, set_timestamps, set_wscale, set_sack, syn_base, tcp_syn_options,
  Request, synack_base, synack_rest, keep_tstamp, tcp_synack_options,
}
use starlink_tcp.Send.Options.Write.{AoPeer, Sacks, tcp_options_write}
use starlink_tcp.Send.Options.Write.Parts.{key_len, OptSized, is_ready}
use starlink_tcp.Send.Options.Write.Length.{length-tcp_options_write}
use starlink_tcp.Send.Options.Balance.{
  IsBalanced, set_cookie-rest, smc_set_option-rest, mptcp_set_option-rest, set_cookie-IsBalanced,
  smc_set_option-IsBalanced, mptcp_set_option-IsBalanced, bpf_skops_hdr_opt_len-IsBalanced,
}

-- Only options that later steps choose are missing.
record IsFresh (w : Wire) (taken : ℕ) (b : Build) : Type 0 where
  balanced : IsBalanced w taken b
  cookie : b.opts.option_fast_open_cookie ≡ false
  smc : b.opts.option_smc ≡ false
  mptcp : b.opts.option_mptcp ≡ false
  bpf : b.opts.bpf_opt_len ≡ 0

syn_base-IsFresh :
    (w : Wire) (s : Syn) (key : Key)
    → IsWire w
    → IsKey key
    → 0 < s.advertised_mss
    → s.advertised_mss < 2 ^ 16
    → IsFresh w (key_len key) (syn_base w s key)
unfolding syn_base key_option set_mss set_timestamps set_wscale set_sack
syn_base-IsFresh w s no_key h k p q = ground arith
syn_base-IsFresh w s md5 h k p q = ground arith
syn_base-IsFresh w s (ao a) h k p q = ground arith

mptcp-keep_tstamp :
    (key : Key) (cookie : Bool) (r : Request) → (keep_tstamp key cookie r).mptcp ≡ r.mptcp
unfolding keep_tstamp
mptcp-keep_tstamp no_key cookie r = refl
mptcp-keep_tstamp md5 cookie r = ground arith
mptcp-keep_tstamp (ao k) cookie r = refl

synack_base-IsFresh :
    (w : Wire) (cookie : Bool) (r : Request) (mss : ℕ) (key : Key)
    → IsWire w
    → IsKey key
    → 0 < mss
    → mss < 2 ^ 16
    → IsFresh w (key_len key) (synack_base w (keep_tstamp key cookie r) mss key)
unfolding synack_base keep_tstamp key_option set_mss set_timestamps set_wscale set_sack
synack_base-IsFresh w cookie r mss no_key h k p q = ground arith
synack_base-IsFresh w cookie r mss md5 h k p q = ground arith
synack_base-IsFresh w cookie r mss (ao a) h k p q = ground arith

module _ (w : Wire) (h : IsWire w) where
  -- The steps after the fixed options, in the order of a SYN and in that of a SYN-ACK.
  syn_rest-IsBalanced :
      (taken : ℕ) (c : Option Cookie) (smc : Bool) (m : Option Mptcp) (p : Bpf) (b : Build)
      → OptSized m
      → IsBpf p
      → IsFresh w taken b
      → IsBalanced w taken
          (bpf_skops_hdr_opt_len p (mptcp_set_option m (smc_set_option w smc (set_cookie w c b))))
  syn_rest-IsBalanced taken c smc m p b s i f =
      let b1 = set_cookie w c b in
      let b2 = smc_set_option w smc b1 in
      let b3 = mptcp_set_option m b2 in
      let rest = set_cookie-rest w c b in
      let rest2 = smc_set_option-rest w smc b1 in
      bpf_skops_hdr_opt_len-IsBalanced w h taken p b3 i
        ((mptcp_set_option-rest m b2).1 ∙ rest2.1 ∙ rest.2 ∙ f.bpf)
        (mptcp_set_option-IsBalanced w h taken m b2 s (rest2.0 ∙ rest.1 ∙ f.mptcp) (
          smc_set_option-IsBalanced w h taken smc b1 (rest.0 ∙ f.smc)
            (set_cookie-IsBalanced w h taken c b f.cookie f.balanced)))

  synack_rest-IsBalanced :
      (taken : ℕ) (c : Option Cookie) (smc : Bool) (m : Option Mptcp) (p : Bpf) (b : Build)
      → OptSized m
      → IsBpf p
      → IsFresh w taken b
      → IsBalanced w taken
          (bpf_skops_hdr_opt_len p (smc_set_option w smc (mptcp_set_option m (set_cookie w c b))))
  synack_rest-IsBalanced taken c smc m p b s i f =
      let b1 = set_cookie w c b in
      let b2 = mptcp_set_option m b1 in
      let b3 = smc_set_option w smc b2 in
      let rest = set_cookie-rest w c b in
      let rest2 = mptcp_set_option-rest m b1 in
      bpf_skops_hdr_opt_len-IsBalanced w h taken p b3 i
        ((smc_set_option-rest w smc b2).1 ∙ rest2.1 ∙ rest.2 ∙ f.bpf)
        (smc_set_option-IsBalanced w h taken smc b2 (rest2.0 ∙ rest.0 ∙ f.smc) (
          mptcp_set_option-IsBalanced w h taken m b1 s (rest.1 ∙ f.mptcp)
            (set_cookie-IsBalanced w h taken c b f.cookie f.balanced)))

-- The size is that of the bytes that `tcp_options_write` and BPF write; it fits, in whole words.
pub record IsExact (w : Wire) (key : Key) (o : OutOptions) (size : ℕ) (peer : AoPeer)
    (sacks : Sacks) : Type 0 where
  pub announces : size ≡ length (tcp_options_write w key peer sacks o).0 + o.bpf_opt_len
  pub fits : size ≤ 40
  pub words : size % 4 ≡ 0

pub balanced-IsExact :
    (w : Wire) (key : Key) (peer : AoPeer) (sacks : Sacks) (b : Build)
    → IsWire w
    → IsKey key
    → is_ready peer ≡ true
    → (b.opts.option_smc && b.opts.option_mptcp) ≡ false
    → IsBalanced w (key_len key) b
    → IsExact w key b.opts (sub32 w.max_tcp_option_space b.remaining) peer sacks
balanced-IsExact w key peer sacks b h k r x v =
    let written = length-tcp_options_write w key peer sacks b.opts h k r v.sized x in
    record { announces = omega (arith, written); fits = omega arith; words = omega arith }

-- A SYN announces exactly the bytes that are then written for it, at most 40 and in whole words; so
-- the room left never wraps around. The MSS is not 0, a TCP-AO key leaves room for the fixed
-- options, MPTCP and BPF keep to what they announce, and not both SMC and MPTCP are chosen.
pub tcp_syn_options-IsExact :
    (w : Wire) (s : Syn) (key : Key) (peer : AoPeer) (sacks : Sacks)
    → IsWire w
    → IsKey key
    → is_ready peer ≡ true
    → 0 < s.advertised_mss
    → s.advertised_mss < 2 ^ 16
    → OptSized s.mptcp
    → IsBpf s.bpf
    → ((tcp_syn_options w s key).1.0.option_smc && (tcp_syn_options w s key).1.0.option_mptcp)
      ≡ false
    → IsExact w key (tcp_syn_options w s key).1.0 (tcp_syn_options w s key).1.1 peer sacks
unfolding tcp_syn_options
tcp_syn_options-IsExact w s key peer sacks h k r p q m i x =
    balanced-IsExact w key peer sacks _ h k r x (
      syn_rest-IsBalanced w h (key_len key) s.fastopen s.syn_smc s.mptcp s.bpf _ m i
        (syn_base-IsFresh w s key h k p q))

-- A SYN-ACK announces exactly the bytes that are then written for it, at most 40 and in whole
-- words, whatever the request asks for and whether or not a key makes it drop the timestamps. The
-- MSS is not 0, a TCP-AO key leaves room for the fixed options, MPTCP and BPF keep to what they
-- announce, and not both SMC and MPTCP are chosen.
pub tcp_synack_options-IsExact :
    (w : Wire) (req : Request) (mss : ℕ) (key : Key) (foc : Option Cookie) (cookie syn_smc : Bool)
    (bpf : Bpf) (peer : AoPeer) (sacks : Sacks)
    → IsWire w
    → IsKey key
    → is_ready peer ≡ true
    → 0 < mss
    → mss < 2 ^ 16
    → OptSized req.mptcp
    → IsBpf bpf
    → let o = (tcp_synack_options w req mss key foc cookie syn_smc bpf).1 in
      (o.0.option_smc && o.0.option_mptcp) ≡ false → IsExact w key o.0 o.1 peer sacks
unfolding tcp_synack_options synack_rest
tcp_synack_options-IsExact w req mss key foc cookie syn_smc bpf peer sacks h k r p q m i x =
    let req2 = keep_tstamp key cookie req in
    balanced-IsExact w key peer sacks _ h k r x (
      synack_rest-IsBalanced w h (key_len key) foc (syn_smc && req2.smc_ok) req2.mptcp bpf _
        (subst OptSized (sym (mptcp-keep_tstamp key cookie req)) m) i
        (synack_base-IsFresh w cookie req mss key h k p q))
