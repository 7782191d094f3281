-- ===== src/Send/Xmit/Loop/Calls.antt =====
-- A call of `tcp_write_xmit`, redhat_kernel/tcp_output.c, ends, sends in order and stays within the
-- windows.
use starlink_tcp.Common.{ℕ, ◌≤◌, ◌<◌, ◌*◌, ◌^◌, ◌≢◌, ◌≡◌, refl, arith, List, ◌++◌, false, max}
use starlink_tcp.Send.Limits.{NoNagle, tcp_tso_segs}
use starlink_tcp.Send.Limits.Quota.{tcp_tso_segs-fits}
use starlink_tcp.Send.Buffer.Whole.{Splits}
use native.Mathlib.Nat.{mul-le-mul_left}
use starlink_tcp.Send.Buffer.{Buff}
use starlink_tcp.Send.Xmit.{Sk, Host, tcp_mstamp_refresh}
use starlink_tcp.Send.Xmit.Loop.{Loop, ended, Xmit, returned, finished, call_of, tcp_write_xmit}
use starlink_tcp.Send.Xmit.Loop.Steps.{payloads, IsChain, has_fin, Within, weight}
use starlink_tcp.Send.Xmit.Loop.Heads.{IsSerial, IsCall}
use starlink_tcp.Send.Xmit.Loop.Runs.{Ran, xmit_loop-Ran}

-- What a call has sent and left, once it returns; it meets no BUG_ON.
abbrev pub SendsInOrder : Sk → Xmit → Type 0
SendsInOrder sk (returned next probe again) =
    (out : List Buff) × (next.wire ≡ sk.wire ++ out)
    × (payloads out ++ payloads next.write_queue ≡ payloads sk.write_queue)
    × IsChain next.tp.snd_nxt next.write_queue
    × Within sk.tp.wnd_end out
SendsInOrder sk Xmit.bug = ⊥
SendsInOrder sk Xmit.out_of_fuel = ⊥

finished-SendsInOrder :
    (P : Type 0) (bound : ℕ) (h : Host) (push_one : ℕ) (sk : Sk) (l : Loop)
    → Ran P bound sk l
    → SendsInOrder sk (finished h push_one l)
unfolding finished
finished-SendsInOrder P bound h push_one sk (ended next x y n) (out, m) =
    (out, m.wire, m.bytes, m.chain, m.reach)
finished-SendsInOrder P bound h push_one sk Loop.bug x = elim x [ ]
finished-SendsInOrder P bound h push_one sk Loop.out_of_fuel x = elim x [ ]

-- What a call needs: the splitter and the order of the kernel, a segment size whose GSO packets fit
-- a word, and no forced probe.
pub record IsCaller (h : Host) (mss_now push_one : ℕ) : Type 0 where
  pub splits : Splits h.splitter
  pub order : IsSerial h.splitter.order
  pub some_mss : 0 < mss_now
  pub small_mss : mss_now < 2 ^ 30
  pub small_gso : mss_now * h.pacing.gso_max_segs < 2 ^ 32
  pub no_probe : push_one ≢ 2

call_of-IsCall :
    (h : Host) (mss_now : ℕ) (nonagle : NoNagle) (push_one : ℕ)
    → IsCaller h mss_now push_one
    → IsCall h (call_of h mss_now nonagle push_one)
call_of-IsCall h mss_now nonagle push_one ok =
    let segs = tcp_tso_segs h.pacing mss_now in
    let small = ok.small_gso in
    let fits =
      mul-le-mul_left {m = segs} {n = h.pacing.gso_max_segs} mss_now
        (tcp_tso_segs-fits h.pacing mss_now).0 in
    record {
      splits = ok.splits;
      order = ok.order;
      some_mss = ok.some_mss;
      small_mss = ok.small_mss;
      small = omega arith;
      no_probe = ok.no_probe;
    }

-- A call of `tcp_write_xmit` ends, within the weight of the write queue in turns and without a
-- BUG_ON. What went to the IP layer and then what is still queued is the queue as it was, byte for
-- byte; the queue goes on at `snd_nxt` without a gap; and each buffer that went lies in the peer's
-- window: the distance modulo 2 ^ 32 from its start to the end of the window is at least its bytes,
-- and less than 2 ^ 32 - 2 ^ 30, so that the end is not one that the peer took back, by at most the
-- largest window, to before the buffer. The queue began so, its buffers are sound, the socket is not
-- under repair, and the call does not force a probe.
pub tcp_write_xmit-SendsInOrder :
    (h : Host) (fuel mss_now : ℕ) (nonagle : NoNagle) (push_one : ℕ) (sk : Sk)
    → IsCaller h mss_now push_one
    → IsChain sk.tp.snd_nxt sk.write_queue
    → sk.repair ≡ false
    → weight sk.write_queue < fuel
    → SendsInOrder sk (tcp_write_xmit h fuel mss_now nonagle push_one sk)
unfolding tcp_write_xmit tcp_mstamp_refresh
tcp_write_xmit-SendsInOrder h fuel mss_now nonagle push_one sk ok chain r w =
    finished-SendsInOrder ⊥ sk.tp.snd_cwnd h push_one (tcp_mstamp_refresh h sk) _ (
      xmit_loop-Ran ⊥ sk.tp.snd_cwnd h (call_of h mss_now nonagle push_one) fuel
        (tcp_mstamp_refresh h sk) 0 (call_of-IsCall h mss_now nonagle push_one ok)
        record {
          chain = chain;
          running = r;
          cwnd = omega arith;
          low = λ x. elim x [ ];
          plain = λ x. elim x [ ];
        }
        w)

-- What is in flight after a call.
abbrev pub IsBounded : Sk → Xmit → Type 0
IsBounded sk (returned next probe again) = next.tp.in_flight ≤ max sk.tp.in_flight sk.tp.snd_cwnd
IsBounded sk Xmit.bug = ⊥
IsBounded sk Xmit.out_of_fuel = ⊥

finished-IsBounded :
    (bound : ℕ) (h : Host) (push_one : ℕ) (sk base : Sk) (l : Loop)
    → max base.tp.in_flight base.tp.snd_cwnd ≡ bound
    → Ran Unit bound sk l
    → IsBounded base (finished h push_one l)
unfolding finished
finished-IsBounded bound h push_one sk base (ended next x y n) e (out, m) = rw e (m.flight tt)
finished-IsBounded bound h push_one sk base Loop.bug e x = elim x [ ]
finished-IsBounded bound h push_one sk base Loop.out_of_fuel e x = elim x [ ]

-- A call of `tcp_write_xmit` never has more in flight than the congestion window allows, unless
-- there was more before: then there is no more than that. No buffer with a FIN is queued, which is
-- exempt; the queue begins at `snd_nxt` without a gap, its buffers are sound, the socket is not
-- under repair, and the call does not force a probe.
pub tcp_write_xmit-IsBounded :
    (h : Host) (fuel mss_now : ℕ) (nonagle : NoNagle) (push_one : ℕ) (sk : Sk)
    → IsCaller h mss_now push_one
    → IsChain sk.tp.snd_nxt sk.write_queue
    → sk.repair ≡ false
    → weight sk.write_queue < fuel
    → has_fin sk.write_queue ≡ false
    → IsBounded sk (tcp_write_xmit h fuel mss_now nonagle push_one sk)
unfolding tcp_write_xmit tcp_mstamp_refresh
tcp_write_xmit-IsBounded h fuel mss_now nonagle push_one sk ok chain r w f =
    let bound = max sk.tp.in_flight sk.tp.snd_cwnd in
    finished-IsBounded bound h push_one (tcp_mstamp_refresh h sk) sk _ refl (
      xmit_loop-Ran Unit bound h (call_of h mss_now nonagle push_one) fuel (tcp_mstamp_refresh h sk)
        0 (call_of-IsCall h mss_now nonagle push_one ok)
        record {
          chain = chain;
          running = r;
          cwnd = omega arith;
          low = λ _. omega arith;
          plain = λ _. f;
        }
        w)
