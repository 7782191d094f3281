-- ===== src/Send/Xmit/Loop/Turns.antt =====
-- Every turn of the loop of `tcp_write_xmit`, redhat_kernel/tcp_output.c, sends within its limits
-- and meets no BUG_ON.
use starlink_tcp.Common.{
  ℕ, ◌≤◌, ◌<◌, ◌≡◌, ◌≢◌, refl, sym, ap, subst, append-nil, arith, List, [], ◌∷◌, false, not, ◌&&◌,
  ◌==◌, if-cases, if◌then◌else◌,
}
use starlink_tcp.Send.Limits.{tcp_cwnd_test, tcp_snd_wnd_test, tcp_nagle_test}
use starlink_tcp.Send.Limits.Quota.{tcp_cwnd_test-fills}
use starlink_tcp.Send.Buffer.{Buff, seen, tcp_init_tso_segs}
use starlink_tcp.Send.Buffer.Whole.{segments}
use starlink_tcp.Send.Xmit.Defer.{Defer, defer_bug, send_now, wait, tcp_tso_should_defer}
use starlink_tcp.Send.Xmit.Defer.Decided.{tcp_tso_should_defer≢bug}
use starlink_tcp.Send.Xmit.{Sk, Host, queued, tcp_pacing_check, tcp_pacing_timer}
use starlink_tcp.Send.Xmit.Loop.{
  Turn, stop, Call, is_last, push_alone, limit_of, portioned, timed, weighed, turn,
}
use starlink_tcp.Send.Xmit.Loop.Steps.{
  payloads, IsChain, has_fin, weight, Moves, Held, Good, held-Moves,
}
use starlink_tcp.Send.Xmit.Loop.Portion.{Allowed, portioned-Good}
use starlink_tcp.Send.Xmit.Loop.Heads.{
  IsCall, tcp_init_tso_segs-IsInit, limit_of-fits, tcp_cwnd_test-opens, some_quota, one_segment,
}

module _ (P : Type 0) (bound : ℕ) (sk : Sk) (h : Host) (c : Call) (ok : IsCall h c) where
  -- After the deferral has its say.
  deferred-Good :
      (d : Defer) (go : Turn) (next : Sk)
      → d ≢ defer_bug
      → Good P bound sk go
      → Moves P bound sk next []
      → Good P bound sk (elim d [
        | defer_bug ↦ Turn.bug
        | send_now ↦ go
        | wait cwnd_short rwnd_short ↦ stop next cwnd_short rwnd_short
      ])
  deferred-Good defer_bug go next n g m = n refl
  deferred-Good send_now go next n g m = g
  deferred-Good (wait a b) go next n g m = m

  timed-Good :
      (quota : ℕ) (skb : Buff) (rest : List Buff)
      → Held P bound sk sk skb rest
      → Allowed P bound c.mss_now (limit_of h c quota sk skb rest) quota sk skb
      → weight (skb ∷ rest) ≤ weight sk.write_queue
      → 1 ≤ skb.pcount
      → (1 < skb.pcount → sk.tp.in_flight < sk.tp.snd_cwnd)
      → Good P bound sk (timed h c quota sk skb rest)
  unfolding timed queued
  timed-Good quota skb rest held a w p open_cwnd =
      let limit = limit_of h c quota sk skb rest in
      let Q : Turn → Type 0 = λ t. Good P bound sk t in
      let go = portioned-Good P bound c.mss_now limit quota sk h sk skb rest ok.splits held a w in
      let stays = held-Moves P bound sk sk skb rest held in
      if-cases Q (skb.pcount == 1)
        (λ _.
          if-cases Q
            (tcp_nagle_test h.splitter.order sk.tp (seen skb) c.mss_now
              (if is_last rest then c.nonagle else push_alone))
            (λ _. go) (λ _. stays))
        (λ e.
          if-cases Q (c.push_one == 0)
            (λ _.
              deferred-Good (tcp_tso_should_defer h c.max_segs (queued sk skb rest) skb rest)
                (portioned h c.mss_now limit sk skb rest) (queued sk skb rest)
                (tcp_tso_should_defer≢bug h c.max_segs (queued sk skb rest) skb rest (ground arith)
                  (open_cwnd (ground arith)))
                go stays)
            (λ _. go))

  weighed-Good :
      (skb : Buff) (rest : List Buff)
      → Held P bound sk sk skb rest
      → weight (skb ∷ rest) ≤ weight sk.write_queue
      → 1 ≤ skb.pcount
      → skb.pcount ≤ segments c.mss_now skb.pages.len
      → sk.tp.snd_cwnd ≤ bound
      → Good P bound sk (weighed h c sk skb rest)
  unfolding weighed
  weighed-Good skb rest held w p segs cw =
      let Q : Turn → Type 0 = λ t. Good P bound sk t in
      let quota = tcp_cwnd_test sk.tp (seen skb) in
      let stays = held-Moves P bound sk sk skb rest held in
      if-cases Q (skb.pcount == 0) (λ e. ground arith)
        (λ _.
          if-cases Q (quota == 0 && not (c.push_one == 2)) (λ _. stays)
            (λ e.
              if-cases Q (not (tcp_snd_wnd_test h.splitter.order sk.tp (seen skb) c.mss_now))
                (λ _. stays)
                (λ t.
                  let some_q = some_quota quota c.push_one e ok.no_probe in
                  let q = if quota == 0 then 1 else quota in
                  let more : 0 < q = omega (arith, some_q.0, some_q.1) in
                  let fits = limit_of-fits h c q sk skb rest ok held.sound more (ground arith) in
                  timed-Good q skb rest held
                    record {
                      some_mss = ok.some_mss;
                      some_quota = more;
                      within = fits.0;
                      segs = segs;
                      seen = (fits.1, fits.2);
                      space = λ x. omega (
                        arith,
                        some_q.1,
                        held.low x,
                        (tcp_cwnd_test-fills sk.tp (seen skb)
                            (one_segment skb.fin (has_fin rest) skb.pcount (held.plain x))).0,
                      );
                    }
                    w p (tcp_cwnd_test-opens sk.tp skb some_q.0))))

  -- What the loop keeps: a queue of sound buffers from `snd_nxt` on, the limits of what is in
  -- flight, and a socket that is not under repair.
  pub turn-Good :
      (skb : Buff) (rest : List Buff)
      → sk.write_queue ≡ skb ∷ rest
      → IsChain sk.tp.snd_nxt (skb ∷ rest)
      → sk.repair ≡ false
      → sk.tp.snd_cwnd ≤ bound
      → (P → sk.tp.in_flight ≤ bound)
      → (P → has_fin (skb ∷ rest) ≡ false)
      → Good P bound sk (turn h c sk skb rest)
  unfolding turn tcp_pacing_timer
  turn-Good skb rest q ch r cw low plain =
      let Q : Turn → Type 0 = λ t. Good P bound sk t in
      let b = tcp_init_tso_segs c.mss_now skb in
      let i = tcp_init_tso_segs-IsInit c.mss_now skb ok.some_mss ch.2 in
      let seg = record skb { pcount = b.pcount; gso_size = b.gso_size } in
      let held : Held P bound sk sk seg rest = record {
        tp = refl;
        wire = refl;
        running = refl;
        begins = ch.0;
        sound = record {
          exact = ch.1.exact;
          ends = ch.1.ends;
          short = ch.1.short;
          word = ch.1.word;
        };
        counted = i.2;
        chain = ch.3;
        bytes = ap payloads (sym q);
        plain = plain;
        low = low;
      } in
      if-cases Q sk.repair (λ e. cc)
        (λ _.
          if-cases Q (tcp_pacing_check h sk)
            (λ _. record {
              wire = sym (append-nil sk.wire);
              bytes = refl;
              chain = rw q ch;
              reach = tt;
              plain = λ x. rw q (plain x);
              flight = low;
              wnd = refl;
              cwnd = refl;
              running = refl;
            })
            (λ _.
              subst (λ (x : Buff). Q (weighed h c sk x rest)) (sym i.3)
                (weighed-Good seg rest held (rw q (omega arith)) i.0 i.1 cw)))
