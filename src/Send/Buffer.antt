-- ===== src/Send/Buffer.antt =====
-- A buffer of the sender's queues and how redhat_kernel/tcp_output.c counts its segments, trims it
-- and moves its marks when it is split.
pub mod Whole
use starlink_tcp.Common.{
  ℕ, ◌+◌, ◌-◌, ◌/◌, List, [], ◌∷◌, ◌++◌, Bool, true, false, not, ◌&&◌, ◌||◌, ltb, leb, ◌==◌,
  if◌then◌else◌, length, drop, add32, sub32,
}
use starlink_tcp.Send.Limits.{Order, Skb}

-- `len` with the bytes of each fragment in `skb_shinfo(skb)->frags`; the linear part is empty.
pub record Pages : Type 0 where
  pub len : ℕ
  pub frags : List (List ℕ)

abbrev pub bytes : List (List ℕ) → List ℕ
bytes [] = []
bytes (f ∷ fs) = f ++ bytes fs

-- A `struct sk_buff` of a queue with its control block. `gso_size` is `tcp_gso_size`, `tx_any`
-- tells whether a bit of SKBTX_ANY_TSTAMP is set in `tx_flags`, and `fin`, `psh`, `sacked_acked`,
-- `sacked_retrans` and `lost` are bits of `tcp_flags` and `sacked`.
pub record Buff : Type 0 where
  pub seq : ℕ
  pub end_seq : ℕ
  pub pages : Pages
  pub truesize : ℕ
  pub pcount : ℕ
  pub gso_size : ℕ
  pub tstamp : ℕ
  pub fin : Bool
  pub psh : Bool
  pub eor : Bool
  pub sacked_acked : Bool
  pub sacked_retrans : Bool
  pub lost : Bool
  pub tx_any : Bool
  pub tskey : ℕ
  pub txstamp_ack : Bool

abbrev pub payload : Buff → List ℕ
payload skb = bytes skb.pages.frags

-- What the tests of the sender read of it.
abbrev pub seen : Buff → Skb
seen skb = record {
  seq = skb.seq;
  end_seq = skb.end_seq;
  len = skb.pages.len;
  pcount = skb.pcount;
  fin = skb.fin;
}

-- DIV_ROUND_UP of the kernel's headers.
abbrev pub div_round_up : ℕ → ℕ → ℕ
div_round_up n d = (n + d - 1) / d

unfoldable pub tcp_set_skb_tso_segs : ℕ → Buff → Buff
tcp_set_skb_tso_segs mss_now skb =
    if leb skb.pages.len mss_now
    then record skb { pcount = 1; gso_size = 0 }
    else record skb { pcount = div_round_up skb.pages.len mss_now; gso_size = mss_now }

unfoldable pub tcp_init_tso_segs : ℕ → Buff → Buff
tcp_init_tso_segs mss_now skb =
    if skb.pcount == 0 || (ltb 1 skb.pcount && not (skb.gso_size == mss_now))
    then tcp_set_skb_tso_segs mss_now skb
    else skb

abbrev pub tcp_has_tx_tstamp : Buff → Bool
tcp_has_tx_tstamp skb = skb.txstamp_ack || skb.tx_any

-- Both buffers, the first and the one cut off.
pub record Pair : Type 0 where
  pub skb : Buff
  pub buff : Buff

unfoldable pub tcp_fragment_tstamp : Order → Pair → Pair
tcp_fragment_tstamp order p =
    if tcp_has_tx_tstamp p.skb && not (order.before p.skb.tskey p.buff.seq)
    then record {
      skb = record (p.skb) { tx_any = false; tskey = p.buff.tskey; txstamp_ack = false };
      buff = record (p.buff) {
        tx_any = p.buff.tx_any || p.skb.tx_any;
        tskey = p.skb.tskey;
        txstamp_ack = p.skb.txstamp_ack;
      };
    }
    else p

unfoldable pub tcp_skb_fragment_eor : Pair → Pair
tcp_skb_fragment_eor p = record {
  skb = record (p.skb) { eor = false };
  buff = record (p.buff) { eor = p.skb.eor };
}

-- The loop of `__pskb_trim_head`; the fragments that are eaten are let go.
pub trim_frags : ℕ → List (List ℕ) → List (List ℕ)
trim_frags eat [] = []
trim_frags eat (f ∷ fs) =
    let rest = trim_frags (if leb (length f) eat then eat - length f else 0) fs in
    if leb (length f) eat then rest else drop eat f ∷ rest

unfoldable pub pskb_trim_head : ℕ → Buff → Buff
pskb_trim_head len skb = record skb {
  pages = record { len = sub32 skb.pages.len len; frags = trim_frags len skb.pages.frags };
}

-- What the split of a buffer takes from other code: `skb_split`, which gives the pages of both
-- parts, and the order of sequence numbers.
pub record Splitter : Type 0 where
  pub order : Order
  pub skb_split : ℕ → Pages → Pages × Pages

-- The steps that `tcp_fragment` and `tso_fragment` have in common, before the segments are counted:
-- sizes, sequence numbers, flags, bytes and time stamps. `fresh` is the new, empty buffer.
unfoldable pub divided : Splitter → ℕ → Buff → Buff → Pair
divided s len skb fresh =
    let nlen = sub32 skb.pages.len len in
    let pages = s.skb_split len skb.pages in
    let at = add32 skb.seq len in
    tcp_fragment_tstamp s.order (
      tcp_skb_fragment_eor record {
        skb = record skb {
          truesize = sub32 skb.truesize nlen;
          end_seq = at;
          fin = false;
          psh = false;
          pages = pages.0;
        };
        buff = record fresh {
          truesize = add32 fresh.truesize nlen;
          seq = at;
          end_seq = skb.end_seq;
          fin = skb.fin;
          psh = skb.psh;
          pages = pages.1;
        };
      })

-- The segments of both parts are counted anew.
unfoldable pub counted : ℕ → Pair → Pair
counted mss_now p = record {
  skb = tcp_set_skb_tso_segs mss_now p.skb;
  buff = tcp_set_skb_tso_segs mss_now p.buff;
}
