-- ===== src/Monitor/Lines.antt =====
-- What bin/monitor_ping.c reads from a line of `ping`.
use starlink_tcp.Common.{
  ℕ, ◌-◌, ◌≡◌, arith, refl, ap, true, false, List, [], ◌∷◌, ◌++◌, some, length, length-append,
  take-append, drop-zero,
}
use starlink_tcp.Monitor.{starts_with, strstr, time_eq, space_ms, cut_at, after_time, rtt_text}

-- The pattern stands at no place of `before` in `before ++ rest`.
abbrev pub Misses : List ℕ → List ℕ → List ℕ → Type 0
Misses pat [] rest = Unit
Misses pat (c ∷ cs) rest = (starts_with pat (c ∷ (cs ++ rest)) ≡ false) × Misses pat cs rest

starts_with-append : (pat rest : List ℕ) → starts_with pat (pat ++ rest) ≡ true
unfolding starts_with
starts_with-append [] rest = refl
starts_with-append (p ∷ ps) rest = ground (arith, starts_with-append ps rest)

strstr_here : (pat s : List ℕ) → starts_with pat s ≡ true → strstr pat s ≡ some s
unfolding strstr
strstr_here pat [] h = rw h
strstr_here pat (c ∷ cs) h = rw h

-- `strstr` finds the first place.
strstr-append :
    (pat before rest : List ℕ)
    → Misses pat before (pat ++ rest)
    → strstr pat (before ++ (pat ++ rest)) ≡ some (pat ++ rest)
unfolding strstr
strstr-append pat [] rest h = strstr_here pat (pat ++ rest) (starts_with-append pat rest)
strstr-append pat (c ∷ cs) rest h = rw h.0 (strstr-append pat cs rest h.1)

-- A line with an RTT gives just that RTT: what stands between the first "time=" and the first " ms"
-- after it. No other "time=" begins before that one, and no other " ms" within the RTT.
pub rtt_text-append :
    (before rtt after : List ℕ)
    → Misses time_eq before (time_eq ++ (rtt ++ (space_ms ++ after)))
    → Misses space_ms rtt (space_ms ++ after)
    → rtt_text (before ++ (time_eq ++ (rtt ++ (space_ms ++ after)))) ≡ some rtt
unfolding rtt_text after_time cut_at
rtt_text-append before rtt after h k =
    let text : List ℕ = rtt ++ (space_ms ++ after) in
    let length_rtt : length text - length (space_ms ++ after) ≡ length rtt =
      omega (arith, length-append rtt (space_ms ++ after)) in
    rw
      (
        strstr-append time_eq before text h,
        drop-zero text,
        strstr-append space_ms rtt after k,
        length_rtt,
      )
      (ap some (take-append rtt (space_ms ++ after)))
