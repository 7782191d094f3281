-- ===== src/Send/Chrono/Account.antt =====
-- The chronograph of redhat_kernel/tcp_output.c loses no time.
use starlink_tcp.Common.{
  ℕ, ◌+◌, ◌-◌, ◌^◌, ◌≤◌, ◌<◌, ◌≡◌, arith, refl, Bool, ltb, ◌==◌, sub32, if-elim,
}
use starlink_tcp.Send.Chrono.{
  Chrono, unspec, busy, rwnd_limited, sndbuf_limited, Chronos, rank, add_stat, tcp_chrono_set,
  tcp_chrono_start, tcp_chrono_stop,
}

-- A socket's history from a time on: time passes, and chronographs are started and stopped. The
-- last number is the time that passed with none running.
abbrev pub still : Chrono → ℕ → ℕ
still unspec d = d
still _ d = 0

pub data Runs (begin : ℕ) : Chronos → ℕ → ℕ → Type 0 where
  fresh :
      Runs begin
        (record {
          chrono_type = unspec;
          chrono_start = 0;
          stat_busy = 0;
          stat_rwnd = 0;
          stat_sndbuf = 0;
        })
        begin
        0
  wait :
      {c : Chronos} {now idle : ℕ} (d : ℕ)
      → Runs begin c now idle
      → Runs begin c (now + d) (idle + still c.chrono_type d)
  start :
      {c : Chronos} {now idle : ℕ} (type : Chrono)
      → Runs begin c now idle
      → Runs begin (tcp_chrono_start now type c) now idle
  stop :
      {c : Chronos} {now idle : ℕ} (empty : Bool) (type : Chrono)
      → Runs begin c now idle
      → Runs begin (tcp_chrono_stop now empty type c) now idle

-- The time of the chronograph that runs now.
abbrev pub running : Chrono → ℕ → ℕ
running unspec d = 0
running _ d = d

-- What is on the books.
record IsBooked (begin : ℕ) (c : Chronos) (now idle : ℕ) : Type 0 where
  all :
      begin
        + idle
        + c.stat_busy
        + c.stat_rwnd
        + c.stat_sndbuf
        + running c.chrono_type (now - c.chrono_start)
      ≡ now
  past : c.chrono_start ≤ now

abbrev stats : Chronos → ℕ
stats c = c.stat_busy + c.stat_rwnd + c.stat_sndbuf

stats-add_stat :
    (t : Chrono) (d : ℕ) (c : Chronos)
    → stats c + running t d < 2 ^ 32
    → stats (add_stat t d c) ≡ stats c + running t d
unfolding add_stat
stats-add_stat unspec d c h = omega arith
stats-add_stat busy d c h = omega arith
stats-add_stat rwnd_limited d c h = omega arith
stats-add_stat sndbuf_limited d c h = omega arith

running-zero : (t : Chrono) (n : ℕ) → running t (n - n) ≡ 0
running-zero unspec n = refl
running-zero busy n = omega arith
running-zero rwnd_limited n = omega arith
running-zero sndbuf_limited n = omega arith

running-wait :
    (t : Chrono) (now since d : ℕ)
    → since ≤ now
    → running t (now + d - since) + still t d ≡ running t (now - since) + d
running-wait unspec now since d h = omega arith
running-wait busy now since d h = omega arith
running-wait rwnd_limited now since d h = omega arith
running-wait sndbuf_limited now since d h = omega arith

tcp_chrono_set-IsBooked :
    (begin now idle : ℕ) (new : Chrono) (c : Chronos)
    → now < 2 ^ 32
    → IsBooked begin c now idle
    → IsBooked begin (tcp_chrono_set now new c) now idle
unfolding tcp_chrono_set
tcp_chrono_set-IsBooked begin now idle new c h v =
    let d = now - c.chrono_start in
    let since : sub32 now c.chrono_start ≡ d = omega arith in
    let added = stats-add_stat c.chrono_type d c (omega arith) in
    rw since (record { all = omega (arith, added, running-zero new now); past = omega arith })

runs-IsBooked :
    (begin : ℕ) {c : Chronos} {now idle : ℕ}
    → Runs begin c now idle
    → now < 2 ^ 32
    → IsBooked begin c now idle
unfolding tcp_chrono_start tcp_chrono_stop
runs-IsBooked begin fresh h = record { all = omega arith; past = omega arith }
runs-IsBooked begin (wait {c} {now} d r) h =
    let v = runs-IsBooked begin r (omega arith) in
    record {
      all = omega (arith, running-wait c.chrono_type now c.chrono_start d v.past, v.all);
      past = omega (arith, v.past);
    }
runs-IsBooked begin (start {c} {now} {idle} type r) h =
    let v = runs-IsBooked begin r h in
    if-elim (λ (x : Chronos). IsBooked begin x now idle) (ltb (rank c.chrono_type) (rank type))
      (tcp_chrono_set-IsBooked begin now idle type c h v) v
runs-IsBooked begin (stop {c} {now} {idle} empty type r) h =
    let v = runs-IsBooked begin r h in
    if-elim (λ (x : Chronos). IsBooked begin x now idle) empty
      (tcp_chrono_set-IsBooked begin now idle unspec c h v)
      (if-elim (λ (x : Chronos). IsBooked begin x now idle) (rank type == rank c.chrono_type)
        (tcp_chrono_set-IsBooked begin now idle busy c h v) v)

-- However chronographs are started and stopped, every moment since the beginning is in exactly one
-- of the three statistics, in the chronograph that runs now, or passed with none running. The clock
-- does not wrap around.
pub chrono_time :
    (begin : ℕ) {c : Chronos} {now idle : ℕ}
    → Runs begin c now idle
    → now < 2 ^ 32
    → begin
        + idle
        + c.stat_busy
        + c.stat_rwnd
        + c.stat_sndbuf
        + running c.chrono_type (now - c.chrono_start)
      ≡ now
chrono_time begin r h = (runs-IsBooked begin r h).all
