-- ===== src/Lib.antt =====
-- The receive-window controllers of the kernel code in redhat_kernel/: a TCP receiver on a
-- satellite link knows when the next handover comes, shrinks the window that it advertises before
-- it, holds it at its least through the outage, and lets it grow again after.
--
-- The parts and how they meet. `tcp_select_window` (redhat_kernel/tcp_output.c) chooses the
-- window field of every segment: it asks `__tcp_select_window` how much the memory allows, passes
-- that to one of two controllers, guards the result against shrinking, records and scales it. The
-- dynamic controller (redhat_kernel/tcp_redhat.c) measures each socket, freezes the parameters of
-- a handover some time before it, follows the phases NORMAL, PRE, DRAIN, OUTAGE and RECOVERY by a
-- clock that the sysctls give, and has a target for each. The fixed controller (tcp_output.c)
-- follows the same clock with lengths that are sysctls. The sysctls have defaults
-- (redhat_kernel/tcp_ipv4.c) and a table (redhat_kernel/sysctl_net_ipv4.c). Beside it stand parts
-- of the sender in tcp_output.c: the options of a segment, whose size `tcp_current_mss` takes
-- from the MSS, and the limits on what may be sent; and the programs of bin/ that answer pings
-- and watch them.
--
-- The files, with what they model:
-- - Common: tests, 32-bit and 64-bit words with the wrap written out, an `int` as an integer. An
--   `int` sysctl is kept as its 32-bit pattern and sign-extended where the source widens it.
-- - Kernel/Net, Kernel/Sock: the sysctls of `struct netns_ipv4` (redhat_kernel/ipv4.h) and
--   `tcp_sk_init`; `struct tcp_leo_dynamic_state` (redhat_kernel/tcp_redhat.h) and the fields of
--   `struct tcp_sock` (redhat_kernel/tcp.h) in use. `Env` is what one call reads of the rest of
--   the kernel: the clocks, `ntohs`, `TCP_MSS_DEFAULT`.
-- - Leo/Ewma, Ports, Period, Measure, Plan, Freeze, Timeline, Target, Dynamic: the functions of
--   redhat_kernel/tcp_redhat.c under their names, in the order of the file. A function that
--   writes the socket's state returns it. `Leo/Inv` has the invariant, and the child modules the
--   proofs.
-- - Leo/Dynamic/Reach: the histories of a socket, any calls in any order, with the sysctls, the
--   clocks and the rest of the socket free to change between them.
-- - Window/Fixed: `tcp_leo_rwnd_*`; Window/Space: `__tcp_select_window`; Window/Select:
--   `tcp_select_window`; Window/Initial: `tcp_select_initial_window`.
-- - Sysctl: the `tcp_leo_*` entries of `ipv4_net_table`, and a write to one.
-- - Send/Options: the TCP options of a segment, chosen by `tcp_syn_options`, `tcp_synack_options`
--   (Sizes) and `tcp_established_options` (Established), and written by `tcp_options_write`
--   (Write). A bit of `options` is a field, the bytes are a list, and a byte that the code passes
--   over is `none`. Balance and the modules Exact have the proofs.
-- - Send/Mss: `tcp_advertise_mss`, the conversions between MTU and MSS, `tcp_mtup_init`,
--   `tcp_sync_mss` and `tcp_current_mss`, which asks Send/Options for the options' size.
-- - Send/Limits: the tests that let a buffer out (`tcp_nagle_test`, `tcp_cwnd_test`,
--   `tcp_snd_wnd_test`), its split (`tcp_mss_split_point`) and the size of a GSO packet.
--   Send/Cwnd: the congestion window of an idle sender. Send/Delay: the delayed acknowledgement.
--   Send/Chrono: the chronograph of `tcp_chrono_*`.
-- - Send/Buffer: a buffer of the sender with its bytes, and the steps that `tcp_fragment` and
--   `tso_fragment` share. Send/Fragment: `tcp_fragment` and `tcp_trim_head`, with the counters of
--   the socket. Send/Xmit: what one buffer meets on its way out. Send/Xmit/Defer:
--   `tcp_tso_should_defer`. Send/Xmit/Loop: the loop of `tcp_write_xmit`, which asks Send/Limits
--   for the tests and Send/Cwnd and Send/Chrono at its end; `wire` records the buffers that the IP
--   layer took. Steps, Portion, Heads, Turns, Runs and Calls have the proofs, turn by turn.
-- - Md5: the keys of TCP MD5 signatures of redhat_kernel/tcp_ipv4.c, and the socket option that
--   sets one (Md5/Command).
-- - Echo: `read_all`, `write_all` and the echo loop of bin/app_layer_rtt/tcp_ping_receiver.c,
--   over scripts of what the socket calls return. Pop: the same program with a ping of the access
--   point, bin/app_layer_rtt/tcp_ping_receiver_pop.c: its strings, its loops (Pop/Loop), and the
--   life of its socket and its child (Pop/Life). Udp: bin/app_layer_rtt/udp_ping_receiver.c.
--   Monitor: bin/monitor_ping.c, of which bin/app_layer_rtt/seokhwan/monitor_ping.c is a copy.
-- - Examples: data and runs, among them a socket in the middle of a reduction under the default
--   sysctls, with runs.
--
-- Parameters, for code that is not in the repository: the clocks and `ntohs` (`Env`),
-- `tcp_receive_window` and `MAX_TCP_WINDOW` (`Headers`), the memory accounting (`Memory`),
-- `ilog2` and the constants of a start (`Start`), the handlers of the sysctl table (`Handlers`,
-- with the limits they document as a law); for the sender, the constants of the options (`Wire`,
-- `IsWire`), TCP-AO keys, MPTCP, BPF programs, `tcp_bound_to_half_wnd`, the order of sequence
-- numbers (`Order`) and the congestion control (`Host`); the split of the pages of a buffer
-- (`Splitter`), memory, the tree of sent buffers, the IP layer and the state of the devices
-- (`Send.Fragment.Memory`, `Send.Xmit.Host`, which answers for the state it is asked in); the masks
-- of addresses (`Masks`); the floating-point numbers of the ping
-- monitor (`Double`); `inet_pton` and what the calls of a process return (`Setup`). A socket
-- field is read once per call; the concurrent writers that `READ_ONCE` guards against are not
-- modelled.
--
-- Bounds. The kernel functions loop over the four port slots, the SACK blocks and the bytes of a
-- cookie, and halve the congestion window with the window as fuel, since each round lowers it. An
-- echo loop has as fuel the number of packets that it is followed for, and its theorems hold for
-- every number. The loop of `tcp_write_xmit` has as fuel more turns than the write queue has bytes
-- and buffers, and every turn that sends makes the queue lighter.
-- The clock theorems ask for a time below 2^63 microseconds and a period that is not 0, the plan
-- theorems for limits of at most 4000 seconds, whose microseconds fit 32 bits. Windows and RTTs
-- have 32 bits.
--
-- A segment count and a segment size are numbers where the kernel's fields have 16 bits, and a path
-- MTU is taken to be below 2^31 where the code converts it to an `int`. The call of
-- `tcp_check_space` after sending, which wakes a waiting writer, is left out. The end of a process
-- by a signal without a handler, such as the SIGPIPE of a `send`, is not modelled: the loop of Pop
-- is taken to come to its end.
--
-- Not modelled: log lines and counters of statistics; the rest of the TCP output path (the header
-- that `__tcp_transmit_skb` builds, the probe of the path MTU, retransmission, timers, the
-- handshake) and of the IPv4 code, which is the stock kernel's; the child process
-- of Pop and the netlink calls of the monitor; the experiment scripts and remote monitors of bin/,
-- and the plots of graph/. Nothing in the repository calls `tcp_leo_dynamic_init`: its state is the
-- zeroed one that a new socket has anyway.
pub mod Common
pub mod Kernel
pub mod Leo
pub mod Window
pub mod Sysctl
pub mod Examples
pub mod Echo
pub mod Pop
pub mod Send
pub mod Udp
pub mod Md5
pub mod Monitor
