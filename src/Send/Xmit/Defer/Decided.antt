-- ===== src/Send/Xmit/Defer/Decided.antt =====
-- `tcp_tso_should_defer` of redhat_kernel/tcp_output.c meets no BUG_ON in an open window.
use starlink_tcp.Common.{ℕ, ◌<◌, ◌≢◌, arith, List, [], ◌∷◌, sub32, mul32}
use starlink_tcp.Send.Buffer.{Buff}
use starlink_tcp.Send.Xmit.{Sk, Host}
use starlink_tcp.Send.Xmit.Defer.{defer_bug, limited_by, awaited, tcp_tso_should_defer}

awaited≢bug : (m n : ℕ) (sk : Sk) (skb : Buff) (q : List Buff) → awaited m n sk skb q ≢ defer_bug
unfolding awaited limited_by
awaited≢bug m n sk skb [] = ground arith
awaited≢bug m n sk skb (head ∷ q) = ground arith

-- The BUG_ON of the deferral is not met where the congestion window is open.
pub tcp_tso_should_defer≢bug :
    (h : Host) (max_segs : ℕ) (sk : Sk) (skb : Buff) (rest : List Buff)
    → 1 < skb.pcount
    → sk.tp.in_flight < sk.tp.snd_cwnd
    → tcp_tso_should_defer h max_segs sk skb rest ≢ defer_bug
unfolding tcp_tso_should_defer
tcp_tso_should_defer≢bug h max_segs sk skb rest p q =
    let cong_win = mul32 (sub32 sk.tp.snd_cwnd sk.tp.in_flight) sk.mss_cache in
    ground (arith, awaited≢bug cong_win (sub32 sk.tp.wnd_end skb.seq) sk skb sk.rtx_queue)
