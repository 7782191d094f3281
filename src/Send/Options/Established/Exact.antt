-- ===== src/Send/Options/Established/Exact.antt =====
-- The size that `tcp_established_options` of redhat_kernel/tcp_output.c announces.
use starlink_tcp.Common.{
  ℕ, ◌+◌, ◌-◌, ◌*◌, ◌/◌, ◌%◌, ◌≡◌, ◌≤◌, arith, refl, ◌∙◌, if-elim, if-cases, true, false, Option,
  none, some, ◌==◌, ltb, min, sub32,
}
use starlink_tcp.Send.Options.{
  Wire, IsWire, Mptcp, Key, IsKey, no_key, md5, ao, Build, Bpf, IsBpf, bpf_reserve,
  bpf_skops_hdr_opt_len,
}
use starlink_tcp.Send.Options.Established.{
  Running, Sized, key_size, add_timestamps, add_mptcp, sack_blocks, add_sacks, add_bpf, finish,
  established_base, tcp_established_options,
}
use starlink_tcp.Send.Options.Write.{AoPeer, request, SackBlock, Sacks}
use starlink_tcp.Send.Options.Write.Parts.{key_len, opts_len, OptSized, is_ready}
use starlink_tcp.Send.Options.Write.Length.{length-tcp_options_write}
use starlink_tcp.Send.Options.Balance.{bpf_skops_hdr_opt_len-IsBalanced}
use starlink_tcp.Send.Options.Sizes.Exact.{IsExact, balanced-IsExact}

-- `size` is what the key and the options take so far; at most 40, in whole words.
record IsFilled (w : Wire) (taken : ℕ) (s : Sized) : Type 0 where
  all : s.size ≡ taken + opts_len w s.opts
  fits : s.size ≤ 40
  words : s.size % 4 ≡ 0
  sized : OptSized s.opts.mptcp
  bpf : s.opts.bpf_opt_len ≡ 0
  smc : s.opts.option_smc ≡ false

base-IsFilled :
    (w : Wire) (r : Running) (key : Key)
    → IsWire w
    → IsKey key
    → IsFilled w (key_len key) (established_base w r key)
unfolding key_size add_timestamps
base-IsFilled w r no_key h k = ground arith
base-IsFilled w r md5 h k = ground arith
base-IsFilled w r (ao a) h k = ground arith

-- MPTCP announces whole words, at most as many as it is given.
pub record IsPolite (mptcp : ℕ → Option Mptcp) : Type 0 where
  pub sized : (room : ℕ) → OptSized (mptcp room)
  pub fits : (room : ℕ) (m : Mptcp) → mptcp room ≡ some m → m.size ≤ room

add_mptcp-IsFilled :
    (w : Wire) (taken : ℕ) (m : Option Mptcp) (s : Sized)
    → s.opts.option_mptcp ≡ false
    → OptSized m
    → ((n : Mptcp) → m ≡ some n → n.size ≤ 40 - s.size)
    → IsFilled w taken s
    → IsFilled w taken (add_mptcp m s)
unfolding add_mptcp
add_mptcp-IsFilled w taken none s e z l f = f
add_mptcp-IsFilled w taken (some n) s e z l f = ground (arith, l n refl)

base-rest :
    (w : Wire) (r : Running) (key : Key)
    → ((established_base w r key).opts.option_mptcp ≡ false)
      × ((established_base w r key).opts.num_sack_blocks ≡ 0)
unfolding key_size add_timestamps
base-rest w r no_key = ground arith
base-rest w r md5 = ground arith
base-rest w r (ao a) = ground arith

num_sack_blocks-add_mptcp :
    (m : Option Mptcp) (s : Sized) → (add_mptcp m s).opts.num_sack_blocks ≡ s.opts.num_sack_blocks
unfolding add_mptcp
num_sack_blocks-add_mptcp none s = refl
num_sack_blocks-add_mptcp (some n) s = refl

option_smc-bpf_reserve :
    (left : Option ℕ) (b : Build) → (bpf_reserve left b).opts.option_smc ≡ b.opts.option_smc
unfolding bpf_reserve
option_smc-bpf_reserve none b = refl
option_smc-bpf_reserve (some n) b = ground arith

option_smc-bpf_skops :
    (p : Bpf) (b : Build) → (bpf_skops_hdr_opt_len p b).opts.option_smc ≡ b.opts.option_smc
unfolding bpf_skops_hdr_opt_len
option_smc-bpf_skops p b = ground (arith, option_smc-bpf_reserve (p.run b.remaining) b)

sack_room :
    (w : Wire) (eff_sacks remaining : ℕ)
    → IsWire w
    → sack_blocks w eff_sacks remaining ≡ min eff_sacks ((remaining - 4) / 8) % 256
sack_room w eff_sacks remaining h = rw (h.sack_base, h.sack_perblock) refl

sack_product :
    (w : Wire) (n : ℕ)
    → IsWire w
    → w.tcpolen_sack_base_aligned + n * w.tcpolen_sack_perblock ≡ 4 + 8 * n
sack_product w n h = rw (h.sack_base, h.sack_perblock) (omega arith)

add_sacks-IsFilled :
    (w : Wire) (taken eff_sacks : ℕ) (s : Sized)
    → IsWire w
    → s.opts.num_sack_blocks ≡ 0
    → (eff_sacks == 0) ≡ false
    → ltb
        (sub32 w.max_tcp_option_space s.size)
        (w.tcpolen_sack_base_aligned + w.tcpolen_sack_perblock)
      ≡ false
    → IsFilled w taken s
    → IsFilled w taken (add_sacks w eff_sacks (sub32 w.max_tcp_option_space s.size) s)
unfolding add_sacks
add_sacks-IsFilled w taken eff_sacks s h z e l f =
    let room = sack_room w eff_sacks (sub32 w.max_tcp_option_space s.size) h in
    let product =
      sack_product w (sack_blocks w eff_sacks (sub32 w.max_tcp_option_space s.size)) h in
    ground (arith, room, product)

module _ (w : Wire) (key : Key) (peer : AoPeer) (sacks : Sacks) (h : IsWire w) (k : IsKey key)
    (r : is_ready peer ≡ true) where
  filled-IsExact : (s : Sized) → IsFilled w (key_len key) s → IsExact w key s.opts s.size peer sacks
  filled-IsExact s f =
      let written = length-tcp_options_write w key peer sacks s.opts h k r f.sized (ground arith) in
      record { announces = omega (arith, written); fits = f.fits; words = f.words }

  add_bpf-IsExact :
      (p : Bpf) (s : Sized)
      → IsBpf p
      → IsFilled w (key_len key) s
      → IsExact w key (add_bpf w p s).opts (add_bpf w p s).size peer sacks
  unfolding add_bpf
  add_bpf-IsExact p s i f =
      let b : Build = record { opts = s.opts; remaining = sub32 w.max_tcp_option_space s.size } in
      let full = bpf_skops_hdr_opt_len p b in
      let none_smc : full.opts.option_smc ≡ false = option_smc-bpf_skops p b ∙ f.smc in
      if-elim (λ (t : Sized). IsExact w key t.opts t.size peer sacks) p.write_hdr_opt
        (balanced-IsExact w key peer sacks full h k r (ground arith) (
          bpf_skops_hdr_opt_len-IsBalanced w h (key_len key) p b i f.bpf
            (record { all = omega arith; words = omega arith; sized = f.sized })))
        (filled-IsExact s f)

  finish-IsExact :
      (q : Running) (s : Sized)
      → IsBpf q.bpf
      → s.opts.num_sack_blocks ≡ 0
      → IsFilled w (key_len key) s
      → IsExact w key (finish w q s).opts (finish w q s).size peer sacks
  unfolding finish
  finish-IsExact q s i z f =
      let P : Sized → Type 0 = λ t. IsExact w key t.opts t.size peer sacks in
      let eff_sacks = q.num_sacks + q.dsack in
      let room = sub32 w.max_tcp_option_space s.size in
      if-cases P (eff_sacks == 0) (λ _. add_bpf-IsExact q.bpf s i f)
        (λ e.
          if-cases P (ltb room (w.tcpolen_sack_base_aligned + w.tcpolen_sack_perblock))
            (λ _. filled-IsExact s f)
            (λ l.
              add_bpf-IsExact q.bpf (add_sacks w eff_sacks room s) i
                (add_sacks-IsFilled w (key_len key) eff_sacks s h z e l f)))

-- A segment of a running connection announces exactly the bytes that are then written for it, at
-- most 40 and in whole words: the SACK blocks and BPF get what the key, the timestamps and MPTCP
-- leave. A TCP-AO key is at most 20 bytes long, and MPTCP and BPF keep to the room they are given.
pub tcp_established_options-IsExact :
    (w : Wire) (r : Running) (key : Key) (peer : AoPeer) (sacks : Sacks)
    → IsWire w
    → IsKey key
    → is_ready peer ≡ true
    → IsPolite r.mptcp
    → IsBpf r.bpf
    → IsExact w key
        (tcp_established_options w r key).opts
        (tcp_established_options w r key).size
        peer
        sacks
unfolding tcp_established_options
tcp_established_options-IsExact w r key peer sacks h k a p i =
    let base = established_base w r key in
    let room = sub32 w.max_tcp_option_space base.size in
    let f = base-IsFilled w r key h k in
    let rest = base-rest w r key in
    finish-IsExact w key peer sacks h k a r (add_mptcp (r.mptcp room) base) i
      (num_sack_blocks-add_mptcp (r.mptcp room) base ∙ rest.1)
      (add_mptcp-IsFilled w (key_len key) (r.mptcp room) base rest.0 (p.sized room)
        (λ n e. omega (arith, p.fits room n e, f.fits)) f)

pub tcp_established_options-le :
    (w : Wire) (r : Running) (key : Key)
    → IsWire w
    → IsKey key
    → IsPolite r.mptcp
    → IsBpf r.bpf
    → (tcp_established_options w r key).size ≤ 40
tcp_established_options-le w r key h k p i =
    let block : SackBlock = record { start_seq = 0; end_seq = 0 } in
    let sacks : Sacks = record {
      dsack = 0;
      duplicate_sack = λ _. block;
      selective_acks = λ _. block;
    } in
    (tcp_established_options-IsExact w r key (request 0 0) sacks h k refl p i).fits
