-- ===== src/Monitor.antt =====
-- The monitor that passes RTTs on to the kernel, bin/monitor_ping.c.
pub mod Lines
use starlink_tcp.Common.{
  ℕ, zero, suc, ◌-◌, Bool, true, false, ◌&&◌, List, [], ◌∷◌, Option, none, some, ◌==◌,
  if◌then◌else◌, length, take, drop,
}
use starlink_tcp.Common.Int.{ℤ, pos, ltb_ℤ, sub_ℕ}

-- `strstr`: the text from the first place on where the pattern stands.
unfoldable pub starts_with : List ℕ → List ℕ → Bool
starts_with [] s = true
starts_with (p ∷ ps) [] = false
starts_with (p ∷ ps) (c ∷ cs) = p == c && starts_with ps cs

pub strstr : List ℕ → List ℕ → Option (List ℕ)
unfolding starts_with
strstr pat [] = if starts_with pat [] then some [] else none
strstr pat (c ∷ cs) = if starts_with pat (c ∷ cs) then some (c ∷ cs) else strstr pat cs

-- "time=" and " ms".
abbrev pub time_eq : List ℕ
time_eq = b't' ∷ b'i' ∷ b'm' ∷ b'e' ∷ b'=' ∷ []

abbrev pub space_ms : List ℕ
space_ms = b' ' ∷ b'm' ∷ b's' ∷ []

-- The text of the RTT: `*rtt_end = '\0'` cuts it where " ms" stands.
pub cut_at : List ℕ → Option (List ℕ) → Option (List ℕ)
cut_at text none = none
cut_at text (some end) = some (take (length text - length end) text)

pub after_time : Option (List ℕ) → Option (List ℕ)
unfolding cut_at strstr
after_time none = none
after_time (some found) = cut_at (drop 5 found) (strstr space_ms (drop 5 found))

pub rtt_text : List ℕ → Option (List ℕ)
unfolding after_time strstr
rtt_text line = after_time (strstr time_eq line)

pub record Timeval : Type 0 where
  pub tv_sec : ℕ
  pub tv_usec : ℕ

-- The `double` of the machine, with what the program does to it.
pub record Double : Type 1 where
  pub D : Type 0
  pub of_int : ℤ → D
  pub add : D → D → D
  pub mul : D → D → D
  pub div : D → D → D
  pub gt : D → D → Bool
  pub atof : List ℕ → D
  pub to_int : D → ℤ

-- `struct rtt_data`; the value is the number that its text shows.
pub record RttData : Type 0 where
  pub sec : ℕ
  pub usec : ℕ
  pub rtt_value_microseconds : ℤ
  pub is_reconfig : ℕ

pub send_first : Option RttData → List RttData → List RttData
send_first none rest = rest
send_first (some sent) rest = sent ∷ rest

module _ (d : Double) where
  open d use {D, of_int, add, mul, div, gt, atof, to_int}

  value_of : Option (List ℕ) → ℤ
  value_of none = pos 0
  value_of (some text) = to_int (mul (atof text) (of_int (pos 1000)))

  -- `rtt_value_final`
  pub rtt_value : List ℕ → ℤ
  unfolding value_of rtt_text
  rtt_value line = value_of (rtt_text line)

  unfoldable pub diff_in_ms : Timeval → Timeval → D
  diff_in_ms now last =
      add (mul (of_int (sub_ℕ now.tv_sec last.tv_sec)) (of_int (pos 1000)))
        (div (of_int (sub_ℕ now.tv_usec last.tv_usec)) (of_int (pos 1000)))

  -- One line of `ping`, at a time: what is sent to the kernel.
  pub report : ℤ → Timeval → Timeval → List ℕ → Option RttData
  unfolding rtt_value diff_in_ms
  report threshold last now line =
      if gt (diff_in_ms now last) (of_int threshold)
      then some (record {
        sec = now.tv_sec;
        usec = now.tv_usec;
        rtt_value_microseconds = rtt_value line;
        is_reconfig = 1;
      })
      else if ltb_ℤ (pos 0) (rtt_value line)
      then some (record {
        sec = now.tv_sec;
        usec = now.tv_usec;
        rtt_value_microseconds = rtt_value line;
        is_reconfig = 0;
      })
      else none

  -- The loop over the lines, each with the time after it was read; `last_time` moves with every
  -- line.
  pub monitor : ℤ → Timeval → List (List ℕ × Timeval) → List RttData
  unfolding report send_first
  monitor threshold last [] = []
  monitor threshold last ((line, now) ∷ lines) =
      send_first (report threshold last now line) (monitor threshold now lines)
