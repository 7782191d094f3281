-- ===== src/Send.antt =====
-- What a segment carries and how much may be sent, from redhat_kernel/tcp_output.c.
pub mod Options
pub mod Mss
pub mod Chrono
pub mod Limits
pub mod Cwnd
pub mod Delay
pub mod Buffer
pub mod Fragment
pub mod Xmit
