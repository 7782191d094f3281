-- ===== src/Examples/Pings.antt =====
-- Runs of the receivers of bin/app_layer_rtt on short scripts.
use starlink_tcp.Common.{ℕ, [], ◌∷◌, ◌≡◌, ◌++◌, List, some, true, false, refl, arith}
use starlink_tcp.Echo.{Recv, got, closed, Send, took, read_all, filled, echo, ping_magic}
use starlink_tcp.Echo.Exact.{arrived}
use starlink_tcp.Echo.Refine.{Answers, pings, echo-Answers}
use starlink_tcp.Pop.{trim_whitespace}
use starlink_tcp.Monitor.{starts_with, time_eq, space_ms, rtt_text}
use starlink_tcp.Monitor.Lines.{rtt_text-append}
use starlink_tcp.Pop.Life
use starlink_tcp.Pop.Loop
use starlink_tcp.Pop.Loop.Same.{plain_recvs, plain_sends, ended_as, serve_same}
use starlink_tcp.Pop.Life.Release.{IsReleased, main-IsReleased}
use starlink_tcp.Pop.Trim.{IsTrimmed, trim_whitespace-IsTrimmed}

-- A whole packet, in two calls, and its end.
abbrev tail_bytes : List ℕ
tail_bytes = 2 ∷ 3 ∷ 4 ∷ 5 ∷ 6 ∷ 7 ∷ 8 ∷ 9 ∷ 10 ∷ []

abbrev packet : List Recv
packet = got 1 tail_bytes ∷ Recv.interrupted ∷ got 1 tail_bytes ∷ closed ∷ []

abbrev sends : List Send
sends = took 1 ∷ Send.interrupted ∷ took 19 ∷ []

-- Every packet is a ping: the twenty bytes go back in two calls, and the server closes the stream.
echo-Answers_example :
    Answers (pings (λ pkt. ping_magic) 2 (arrived packet)) (echo (λ pkt. ping_magic) 2 packet sends)
unfolding read_all filled
echo-Answers_example =
    echo-Answers (λ pkt. ping_magic) 2 packet sends ((omega arith, (omega arith, tt)), (tt, tt))

-- " 10.0 \n"
abbrev line : List ℕ
line = 32 ∷ 49 ∷ 48 ∷ 46 ∷ 48 ∷ 32 ∷ 10 ∷ []

trim_whitespace-IsTrimmed_example : IsTrimmed line (trim_whitespace line)
trim_whitespace-IsTrimmed_example = trim_whitespace-IsTrimmed line

-- Everything succeeds, and the child is process 77.
abbrev setup : Life.Setup
setup = record {
  argc = 4;
  local_ip = b'-' ∷ [];
  server_ip = line;
  inet_pton = λ ip. true;
  socket_ok = true;
  bind_ok = true;
  connect_ok = true;
  pop_ip = some line;
  forked = some 77;
}

main-IsReleased_example : IsReleased (Life.main setup).0
main-IsReleased_example = main-IsReleased setup

-- The receiver that a signal can stop, on the same packet, with an interruption that is no stop and
-- then one that is.
abbrev stopped : List Loop.Recv
stopped =
    Loop.got 1 tail_bytes
    ∷ Loop.Recv.interrupted false
    ∷ Loop.got 1 tail_bytes
    ∷ Loop.Recv.interrupted true
    ∷ []

abbrev stop_sends : List Loop.Send
stop_sends = Loop.took 20 ∷ []

serve_same_example :
    Loop.serve (λ pkt. ping_magic) 2 [] stopped stop_sends
    ≡ ended_as (echo (λ pkt. ping_magic) 2 (plain_recvs stopped) (plain_sends stop_sends))
serve_same_example = serve_same (λ pkt. ping_magic) 2 stopped stop_sends

-- "ttl=5 time=71 ms" and the end of the line.
abbrev before_rtt : List ℕ
before_rtt = b't' ∷ b't' ∷ b'l' ∷ b'=' ∷ b'5' ∷ b' ' ∷ []

abbrev rtt_of_line : List ℕ
rtt_of_line = b'7' ∷ b'1' ∷ []

rtt_text-append_example :
    rtt_text (before_rtt ++ (time_eq ++ (rtt_of_line ++ (space_ms ++ (10 ∷ [])))))
    ≡ some rtt_of_line
unfolding starts_with
rtt_text-append_example =
    rtt_text-append before_rtt rtt_of_line (10 ∷ [])
      (refl, (refl, (refl, (refl, (refl, (refl, tt)))))) (refl, (refl, tt))
