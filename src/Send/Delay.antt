-- ===== src/Send/Delay.antt =====
-- The delayed acknowledgement, `tcp_send_delayed_ack` of redhat_kernel/tcp_output.c.
pub mod Timely
use starlink_tcp.Common.{
  ℕ, ◌/◌, ◌^◌, Bool, true, ◌||◌, Option, none, some, ◌==◌, ltb, not, min, max, if◌then◌else◌, sub32,
  add64,
}

-- The constants and functions of the kernel's headers; times are `unsigned long` jiffies.
pub record Clock : Type 0 where
  pub hz : ℕ
  pub tcp_delack_min : ℕ
  pub tcp_delack_max_default : ℕ
  pub usecs_to_jiffies : ℕ → ℕ
  pub time_before : ℕ → ℕ → Bool
  pub time_before_eq : ℕ → ℕ → Bool

-- `icsk_ack` and what else the function reads; `pending` has a field for each bit, and `rto_min` is
-- the metric of the route, if it is locked.
pub record Ack : Type 0 where
  pub ato : ℕ
  pub timeout : ℕ
  pub pending_sched : Bool
  pub pending_timer : Bool
  pub pending_pushed : Bool
  pub pingpong : Bool
  pub srtt_us : ℕ
  pub delack_max : ℕ
  pub rto_min : Option ℕ

-- `max_t(int, 1, rto_min - 1)`
unfoldable pub from_rto_min : ℕ → ℕ
from_rto_min rto_min = let left = sub32 rto_min 1 in if ltb left (2 ^ 31) then max 1 left else 1

unfoldable pub delack_max_of : ℕ → Option ℕ → ℕ
unfolding from_rto_min
delack_max_of delack_max none = delack_max
delack_max_of delack_max (some rto_min) = min delack_max (from_rto_min rto_min)

unfoldable pub tcp_delack_max : Ack → ℕ
unfolding delack_max_of
tcp_delack_max s = delack_max_of s.delack_max s.rto_min

max_ato : Clock → Ack → ℕ
max_ato c s =
    let limit = if s.pingpong || s.pending_pushed then c.tcp_delack_max_default else c.hz / 2 in
    let rtt = max (c.usecs_to_jiffies (s.srtt_us / 8)) c.tcp_delack_min in
    if s.srtt_us == 0 then limit else min rtt limit

pub bounded_ato : Clock → Ack → ℕ
unfolding max_ato tcp_delack_max
bounded_ato c s =
    min (if ltb c.tcp_delack_min s.ato then min s.ato (max_ato c s) else s.ato) (tcp_delack_max s)

-- The acknowledgement goes at once, or the timer is set.
pub data Delayed : Type 0 where
  ack_now : Delayed
  armed : Ack → Delayed

pub arm : ℕ → Ack → Delayed
arm timeout s = armed (record s { pending_sched = true; pending_timer = true; timeout = timeout })

-- A timer that runs is not put off.
pub set_timer : Clock → ℕ → ℕ → Ack → Delayed
unfolding arm
set_timer c jiffies ato s =
    let timeout = add64 jiffies ato in
    if s.pending_timer
    then if c.time_before_eq s.timeout (add64 jiffies (ato / 4))
      then ack_now
      else arm (if not (c.time_before timeout s.timeout) then s.timeout else timeout) s
    else arm timeout s

pub tcp_send_delayed_ack : Clock → ℕ → Ack → Delayed
unfolding bounded_ato set_timer
tcp_send_delayed_ack c jiffies s = set_timer c jiffies (bounded_ato c s) s
