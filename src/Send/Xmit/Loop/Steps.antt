-- ===== src/Send/Xmit/Loop/Steps.antt =====
-- What one turn of the loop of `tcp_write_xmit`, redhat_kernel/tcp_output.c, leaves of the queue:
-- the relation between the socket before and after.
use starlink_tcp.Common.{
  ℕ, suc, ◌+◌, ◌≤◌, ◌<◌, ◌-◌, ◌^◌, ◌≡◌, ◌≢◌, refl, sym, ap, ◌∙◌, arith, List, [], ◌∷◌, ◌++◌, Bool,
  false, ◌||◌, ◌==◌, max, append-nil, if-cases, if◌then◌else◌, sub32,
}
use starlink_tcp.Common.Int.{pos, ltb_ℤ}
use starlink_tcp.Send.Buffer.{Buff, payload}
use starlink_tcp.Send.Buffer.Whole.{IsSound, IsCounted}
use starlink_tcp.Send.Xmit.{
  Sk, Host, zero_ℤ, queued, tcp_small_queue_check, Sent, delivered, tcp_transmit_skb,
  tcp_event_new_data_sent, tcp_update_skb_after_send, accounted,
}
use starlink_tcp.Send.Xmit.Loop.{Turn, stop, went, bug, advanced, transmitted, passed}
use starlink_tcp.Send.Limits.{Sender, tcp_minshall_update}

-- The bytes of a queue.
abbrev pub payloads : List Buff → List ℕ
payloads [] = []
payloads (b ∷ q) = payload b ++ payloads q

-- A queue that begins at `n` and has no gap, of sound buffers.
abbrev pub IsChain : ℕ → List Buff → Type 0
IsChain n [] = Unit
IsChain n (b ∷ q) = (b.seq ≡ n) × IsSound b × IsCounted b × IsChain b.end_seq q

abbrev pub has_fin : List Buff → Bool
has_fin [] = false
has_fin (b ∷ q) = b.fin || has_fin q

-- A window has at most so many bytes, and its end moves back by no more.
abbrev pub max_window : ℕ
max_window = 2 ^ 30

-- The bytes of a buffer lie before the end of the peer's window, and that end is not behind the
-- buffer, by as much as a window: the distance modulo 2 ^ 32 is not one of those that stand for it.
abbrev pub Reaches : ℕ → Buff → Type 0
Reaches wnd_end b =
    (b.pages.len ≤ sub32 wnd_end b.seq) × (sub32 wnd_end b.seq < 2 ^ 32 - max_window)

-- Each buffer lies in the peer's window.
abbrev pub Within : ℕ → List Buff → Type 0
Within wnd_end [] = Unit
Within wnd_end (b ∷ q) = Reaches wnd_end b × Within wnd_end q

-- The turns that a queue may take.
abbrev pub weight : List Buff → ℕ
weight [] = 0
weight (b ∷ q) = suc (b.pages.len + weight q)

-- From `sk` to `next` the buffers `out` went to the IP layer, and what is still queued follows
-- them. `bound` is the most that may be in flight if nothing with a FIN is
-- queued, which `P` says.
pub record Moves (P : Type 0) (bound : ℕ) (sk next : Sk) (out : List Buff) : Type 0 where
  pub wire : next.wire ≡ sk.wire ++ out
  pub bytes : payloads out ++ payloads next.write_queue ≡ payloads sk.write_queue
  pub chain : IsChain next.tp.snd_nxt next.write_queue
  pub reach : Within sk.tp.wnd_end out
  pub plain : P → has_fin next.write_queue ≡ false
  pub flight : P → next.tp.in_flight ≤ bound
  pub wnd : next.tp.wnd_end ≡ sk.tp.wnd_end
  pub cwnd : next.tp.snd_cwnd ≡ sk.tp.snd_cwnd
  pub running : next.repair ≡ sk.repair

-- `skb` and `rest` are what the write queue of `sk` has become, in the socket `cur`.
pub record Held (P : Type 0) (bound : ℕ) (sk cur : Sk) (skb : Buff) (rest : List Buff)
    : Type 0 where
  pub tp : cur.tp ≡ sk.tp
  pub wire : cur.wire ≡ sk.wire
  pub running : cur.repair ≡ sk.repair
  pub begins : skb.seq ≡ sk.tp.snd_nxt
  pub sound : IsSound skb
  pub counted : IsCounted skb
  pub chain : IsChain skb.end_seq rest
  pub bytes : payload skb ++ payloads rest ≡ payloads sk.write_queue
  pub plain : P → (skb.fin || has_fin rest) ≡ false
  pub low : P → sk.tp.in_flight ≤ bound

-- All of `skb` may go: it lies in the peer's window, the congestion window has room for it, and the
-- queue is lighter without it.
pub record Ready (P : Type 0) (bound : ℕ) (sk cur : Sk) (skb : Buff) (rest : List Buff)
    : Type 0 where
  pub held : Held P bound sk cur skb rest
  pub reach : Reaches sk.tp.wnd_end skb
  pub room : P → sk.tp.in_flight + skb.pcount ≤ bound
  pub light : skb.end_seq ≢ skb.seq → weight rest < weight sk.write_queue

-- What a turn may do.
abbrev pub Good : Type 0 → ℕ → Sk → Turn → Type 0
Good P bound sk (stop next a b) = Moves P bound sk next []
Good P bound sk (went next n) =
    (one : Buff) × Moves P bound sk next (one ∷ [])
    × (weight next.write_queue < weight sk.write_queue)
Good P bound sk bug = ⊥

or-false : (a b : Bool) → (a || b) ≡ false → b ≡ false
or-false a b e = ground arith

or-right : (b : Bool) (m n : ℕ) → (b || m == n) ≡ false → m ≢ n
or-right b m n e = ground arith

module _ (P : Type 0) (bound : ℕ) (sk : Sk) where
  pub held-Moves :
      (cur : Sk) (skb : Buff) (q : List Buff)
      → Held P bound sk cur skb q
      → Moves P bound sk (queued cur skb q) []
  unfolding queued
  held-Moves cur skb q r = record {
    wire = r.wire ∙ sym (append-nil sk.wire);
    bytes = r.bytes;
    chain = (r.begins ∙ ap (λ (t : Sender). t.snd_nxt) (sym r.tp), r.sound, r.counted, r.chain);
    reach = tt;
    plain = r.plain;
    flight = λ e. rw r.tp (r.low e);
    wnd = rw r.tp refl;
    cwnd = rw r.tp refl;
    running = r.running;
  }

  -- The head that is gone.
  advanced-Good :
      (h : Host) (mss_now : ℕ) (was cur : Sk) (skb : Buff) (q : List Buff)
      → cur.tp ≡ sk.tp
      → cur.wire ≡ sk.wire ++ skb ∷ []
      → cur.repair ≡ sk.repair
      → Ready P bound sk was skb q
      → skb.end_seq ≢ skb.seq
      → Good P bound sk (advanced h mss_now cur skb q)
  unfolding advanced tcp_event_new_data_sent tcp_minshall_update
  advanced-Good h mss_now was cur skb q t w p r n =
      let held = r.held in
      (
        skb,
        record {
          wire = w;
          bytes = ap (λ t. t ++ payloads q) (append-nil (payload skb)) ∙ held.bytes;
          chain = held.chain;
          reach = (r.reach, tt);
          plain = λ e. or-false skb.fin (has_fin q) (held.plain e);
          flight = λ e. rw t (omega (arith, r.room e));
          wnd = rw t refl;
          cwnd = rw t refl;
          running = p;
        },
        r.light n,
      )

  -- The head is handed over, and stays if the IP layer does not take it.
  transmitted-Good :
      (h : Host) (mss_now : ℕ) (cur : Sk) (skb : Buff) (q : List Buff)
      → Ready P bound sk cur skb q
      → skb.end_seq ≢ skb.seq
      → Good P bound sk (transmitted h mss_now q (tcp_transmit_skb h cur skb))
  unfolding transmitted tcp_transmit_skb delivered tcp_update_skb_after_send accounted
  transmitted-Good h mss_now cur skb q r n =
      let held = r.held in
      let Q : Sent → Type 0 = λ s. Good P bound sk (transmitted h mss_now q s) in
      let sent = record skb { tstamp = max cur.tcp_wstamp_ns cur.tcp_clock_cache } in
      let stays : (next : Sk)
          → next.tp ≡ cur.tp
          → next.wire ≡ cur.wire
          → next.repair ≡ cur.repair
          → Held P bound sk next sent q =
        λ next a b c. record {
          tp = a ∙ held.tp;
          wire = b ∙ held.wire;
          running = c ∙ held.running;
          begins = held.begins;
          sound = record {
            exact = held.sound.exact;
            ends = held.sound.ends;
            short = held.sound.short;
            word = held.sound.word;
          };
          counted = held.counted;
          chain = held.chain;
          bytes = held.bytes;
          plain = held.plain;
          low = held.low;
        } in
      let out =
        accounted sent (record cur { tcp_wstamp_ns = max cur.tcp_wstamp_ns cur.tcp_clock_cache }) in
      let err = h.queue_xmit out sent in
      if-cases Q
        (h.unsent (record cur { tcp_wstamp_ns = max cur.tcp_wstamp_ns cur.tcp_clock_cache }) sent)
        (λ _. held-Moves _ sent q (stays _ refl refl refl))
        (λ _.
          if-cases Q (zero_ℤ (if ltb_ℤ (pos 0) err then h.net_xmit_eval err else err))
            (λ _.
              advanced-Good h mss_now cur _ sent q held.tp (ap (λ w. w ++ sent ∷ []) held.wire)
                held.running
                record {
                  held = stays cur refl refl refl;
                  reach = r.reach;
                  room = r.room;
                  light = r.light;
                }
                n)
            (λ _. held-Moves _ sent q (stays _ refl refl refl)))

  pub passed-Good :
      (h : Host) (mss_now : ℕ) (cur : Sk) (skb : Buff) (q : List Buff)
      → Ready P bound sk cur skb q
      → Good P bound sk (passed h mss_now cur skb q)
  unfolding passed tcp_small_queue_check queued
  passed-Good h mss_now cur skb q r =
      let held = r.held in
      let checked = tcp_small_queue_check h (queued cur skb q) skb 0 in
      let now : Held P bound sk (checked.0) skb q = record {
        tp = held.tp;
        wire = held.wire;
        running = held.running;
        begins = held.begins;
        sound = held.sound;
        counted = held.counted;
        chain = held.chain;
        bytes = held.bytes;
        plain = held.plain;
        low = held.low;
      } in
      if-cases (λ (t : Turn). Good P bound sk t) (checked.1 || skb.end_seq == skb.seq)
        (λ _. held-Moves (checked.0) skb q now)
        (λ e.
          transmitted-Good h mss_now (checked.0) skb q
            record { held = now; reach = r.reach; room = r.room; light = r.light }
            (or-right (checked.1) skb.end_seq skb.seq e))
