-- ===== src/Send/Options/Balance.antt =====
-- The room left for options, redhat_kernel/tcp_output.c: each step takes as many bytes as the
-- option it chooses is long.
use starlink_tcp.Common.{ℕ, ◌+◌, ◌%◌, ◌≡◌, ◌≤◌, arith, refl, Bool, false, Option, none, some}
use starlink_tcp.Send.Options.{
  Wire, IsWire, Cookie, Mptcp, Build, cookie_need, cookie_fits, set_cookie, smc_set_option,
  mptcp_set_option, Bpf, IsBpf, bpf_reserve, bpf_skops_hdr_opt_len,
}
use starlink_tcp.Send.Options.Write.Parts.{opts_len, OptSized}

-- What the key, the options and BPF take, and what is left, are the room of 40 bytes; what is left
-- is in whole words.
pub record IsBalanced (w : Wire) (taken : ℕ) (b : Build) : Type 0 where
  pub all : taken + opts_len w b.opts + b.opts.bpf_opt_len + b.remaining ≡ 40
  pub words : b.remaining % 4 ≡ 0
  pub sized : OptSized b.opts.mptcp

cookie_need_words : (w : Wire) (c : Cookie) → cookie_need w c % 4 ≡ 0
unfolding cookie_need
cookie_need_words w c = ground arith

module _ (w : Wire) (h : IsWire w) (taken : ℕ) where
  pub set_cookie-IsBalanced :
      (c : Option Cookie) (b : Build)
      → b.opts.option_fast_open_cookie ≡ false
      → IsBalanced w taken b
      → IsBalanced w taken (set_cookie w c b)
  unfolding set_cookie cookie_fits
  set_cookie-IsBalanced none b e v = v
  set_cookie-IsBalanced (some c) b e v = ground (arith, cookie_need_words w c)

  pub smc_set_option-IsBalanced :
      (wanted : Bool) (b : Build)
      → b.opts.option_smc ≡ false
      → IsBalanced w taken b
      → IsBalanced w taken (smc_set_option w wanted b)
  unfolding smc_set_option
  smc_set_option-IsBalanced wanted b e v = ground arith

  pub mptcp_set_option-IsBalanced :
      (m : Option Mptcp) (b : Build)
      → OptSized m
      → b.opts.option_mptcp ≡ false
      → IsBalanced w taken b
      → IsBalanced w taken (mptcp_set_option m b)
  unfolding mptcp_set_option
  mptcp_set_option-IsBalanced none b s e v = v
  mptcp_set_option-IsBalanced (some m) b s e v = ground arith

  bpf_reserve-IsBalanced :
      (left : Option ℕ) (b : Build)
      → ((n : ℕ) → left ≡ some n → n ≤ b.remaining)
      → b.opts.bpf_opt_len ≡ 0
      → IsBalanced w taken b
      → IsBalanced w taken (bpf_reserve left b)
  unfolding bpf_reserve
  bpf_reserve-IsBalanced none b l e v = v
  bpf_reserve-IsBalanced (some n) b l e v = ground (arith, l n refl)

  pub bpf_skops_hdr_opt_len-IsBalanced :
      (p : Bpf) (b : Build)
      → IsBpf p
      → b.opts.bpf_opt_len ≡ 0
      → IsBalanced w taken b
      → IsBalanced w taken (bpf_skops_hdr_opt_len p b)
  unfolding bpf_skops_hdr_opt_len
  bpf_skops_hdr_opt_len-IsBalanced p b i e v =
      ground
        (arith, bpf_reserve-IsBalanced (p.run b.remaining) b (λ n. i.reserves b.remaining n) e v)

-- What a step leaves alone.
pub set_cookie-rest :
    (w : Wire) (c : Option Cookie) (b : Build)
    → ((set_cookie w c b).opts.option_smc ≡ b.opts.option_smc)
      × ((set_cookie w c b).opts.option_mptcp ≡ b.opts.option_mptcp)
      × ((set_cookie w c b).opts.bpf_opt_len ≡ b.opts.bpf_opt_len)
unfolding set_cookie
set_cookie-rest w none b = (refl, refl, refl)
set_cookie-rest w (some c) b = ground arith

pub smc_set_option-rest :
    (w : Wire) (wanted : Bool) (b : Build)
    → ((smc_set_option w wanted b).opts.option_mptcp ≡ b.opts.option_mptcp)
      × ((smc_set_option w wanted b).opts.bpf_opt_len ≡ b.opts.bpf_opt_len)
unfolding smc_set_option
smc_set_option-rest w wanted b = ground arith

pub mptcp_set_option-rest :
    (m : Option Mptcp) (b : Build)
    → ((mptcp_set_option m b).opts.option_smc ≡ b.opts.option_smc)
      × ((mptcp_set_option m b).opts.bpf_opt_len ≡ b.opts.bpf_opt_len)
unfolding mptcp_set_option
mptcp_set_option-rest none b = (refl, refl)
mptcp_set_option-rest (some m) b = ground arith
