-- ===== src/Send/Options/Write/Length.antt =====
-- The lengths that `tcp_options_write` of redhat_kernel/tcp_output.c gives to the options.
use starlink_tcp.Common.{
  ◌+◌, ◌*◌, ◌≡◌, ◌⊎◌, inl, inr, Bool-cases, arith, refl, Bool, true, false, not, ◌&&◌, List, Option,
  none, some, ◌==◌, if◌then◌else◌, length, drop, length-append, length-drop,
}
use starlink_tcp.Common.Int.{pos_part}
use starlink_tcp.Send.Options.{
  Wire, IsWire, Byte, Cookie, Mptcp, cookie_need, Key, IsKey, OutOptions,
}
use starlink_tcp.Send.Options.Write.{
  memcpy, AoPeer, mss_bytes, timestamp_bytes, sackperm_bytes, wscale_bytes, Sacks, sack_bytes,
  cookie_tail, cookie_bytes, smc_options_write, mptcp_options_write, over, tcp_options_write,
}
use starlink_tcp.Send.Options.Write.Parts.{
  key_len, cookie_len, mptcp_len, is_ready, OptSized, opts_len, length-memcpy, length-block_bytes,
  length-key_bytes, length-cookie_tail,
}

length-cookie_bytes :
    (w : Wire) (sent : Bool) (c : Option Cookie)
    → IsWire w
    → length (cookie_bytes w sent c) ≡ cookie_len w sent c
unfolding cookie_bytes cookie_need
length-cookie_bytes w true (some c) h = ground (
  arith,
  length-append (memcpy (pos_part c.len) c.val)
      (cookie_tail w (w.tcpolen_exp_fastopen_base + pos_part c.len)),
  length-append (memcpy (pos_part c.len) c.val)
      (cookie_tail w (w.tcpolen_fastopen_base + pos_part c.len)),
  length-memcpy (pos_part c.len) c.val,
  length-cookie_tail w (w.tcpolen_exp_fastopen_base + pos_part c.len),
  length-cookie_tail w (w.tcpolen_fastopen_base + pos_part c.len),
)
length-cookie_bytes w true none h = refl
length-cookie_bytes w false c h = refl

length-over :
    (below above : List Byte)
    → (length below ≡ 0) ⊎ (length above ≡ 0)
    → length (over below above) ≡ length below + length above
unfolding over
length-over below above h =
    rw (length-append above (drop (length above) below), length-drop (length above) below)
      (grind arith)

length-mptcp_options_write :
    (sent : Bool) (m : Option Mptcp)
    → OptSized m
    → length (mptcp_options_write sent m) ≡ mptcp_len sent m
unfolding mptcp_options_write
length-mptcp_options_write true (some m) h = h.writes
length-mptcp_options_write true none h = refl
length-mptcp_options_write false m h = refl

length-mss_bytes :
    (w : Wire) (o : OutOptions) → length (mss_bytes w o) ≡ (if o.mss == 0 then 0 else 4)
unfolding mss_bytes
length-mss_bytes w o = ground arith

length-timestamp_bytes :
    (w : Wire) (o : OutOptions) → length (timestamp_bytes w o) ≡ (if o.option_ts then 12 else 0)
unfolding timestamp_bytes
length-timestamp_bytes w o = ground arith

length-sackperm_bytes :
    (w : Wire) (o : OutOptions)
    → length (sackperm_bytes w o) ≡ (if o.option_sack_advertise && not o.option_ts then 4 else 0)
unfolding sackperm_bytes
length-sackperm_bytes w o = ground arith

length-wscale_bytes :
    (w : Wire) (o : OutOptions) → length (wscale_bytes w o) ≡ (if o.option_wscale then 4 else 0)
unfolding wscale_bytes
length-wscale_bytes w o = ground arith

length-sack_bytes :
    (w : Wire) (o : OutOptions) (s : Sacks)
    → length (sack_bytes w o s) ≡ (if o.num_sack_blocks == 0 then 0 else 4 + 8 * o.num_sack_blocks)
unfolding sack_bytes
length-sack_bytes w o s = ground (
  arith,
  length-block_bytes o.num_sack_blocks
      (if s.dsack == 0 then s.selective_acks else s.duplicate_sack),
)

length-smc_options_write :
    (w : Wire) (o : OutOptions) → length (smc_options_write w o) ≡ (if o.option_smc then 8 else 0)
unfolding smc_options_write
length-smc_options_write w o = ground arith

mptcp_len-false : (sent : Bool) (m : Option Mptcp) → sent ≡ false → mptcp_len sent m ≡ 0
mptcp_len-false true m e = grind arith
mptcp_len-false false m e = refl

sole :
    (w : Wire) (o : OutOptions)
    → OptSized o.mptcp
    → (o.option_smc && o.option_mptcp) ≡ false
    → (length (smc_options_write w o) ≡ 0)
      ⊎ (length (mptcp_options_write o.option_mptcp o.mptcp) ≡ 0)
sole w o m x = elim (Bool-cases o.option_smc) [
  | inl e ↦ inr (
      omega (
        arith,
        length-mptcp_options_write o.option_mptcp o.mptcp m,
        mptcp_len-false o.option_mptcp o.mptcp (ground arith),
      ))
  | inr e ↦ inl (rw (length-smc_options_write w o, e) refl)
]

-- The last two options, of which there is at most one.
length-last :
    (w : Wire) (o : OutOptions)
    → OptSized o.mptcp
    → (o.option_smc && o.option_mptcp) ≡ false
    → length (over (smc_options_write w o) (mptcp_options_write o.option_mptcp o.mptcp))
      ≡ (if o.option_smc then 8 else 0) + mptcp_len o.option_mptcp o.mptcp
length-last w o m x =
    rw
      (
        length-over (smc_options_write w o) (mptcp_options_write o.option_mptcp o.mptcp)
            (sole w o m x),
        length-smc_options_write w o,
        length-mptcp_options_write o.option_mptcp o.mptcp m,
      )
      refl

pub length-tcp_options_write :
    (w : Wire) (key : Key) (peer : AoPeer) (sacks : Sacks) (o : OutOptions)
    → IsWire w
    → IsKey key
    → is_ready peer ≡ true
    → OptSized o.mptcp
    → (o.option_smc && o.option_mptcp) ≡ false
    → length (tcp_options_write w key peer sacks o).0 ≡ key_len key + opts_len w o
unfolding tcp_options_write
length-tcp_options_write w key peer sacks o h k r m x =
    rw
      (
        length-append,
        length-append,
        length-append,
        length-append,
        length-append,
        length-append,
        length-append,
        length-key_bytes w key peer k r,
        length-mss_bytes,
        length-timestamp_bytes,
        length-sackperm_bytes,
        length-wscale_bytes,
        length-sack_bytes,
        length-cookie_bytes w o.option_fast_open_cookie o.fastopen_cookie h,
        length-last w o m x,
      )
      (omega arith)
