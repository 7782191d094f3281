-- ===== src/Window.antt =====
-- The receive-window code of redhat_kernel/tcp_output.c.
pub mod Initial
pub mod Fixed
pub mod Space
pub mod Select
