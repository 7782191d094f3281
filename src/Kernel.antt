-- ===== src/Kernel.antt =====
-- What the controller reads of the kernel: the sysctls of a network namespace, and a socket.
pub mod Net
pub mod Sock
