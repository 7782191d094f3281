-- ===== src/Leo.antt =====
-- redhat_kernel/tcp_redhat.c, the dynamic receive-window controller.
pub mod Ewma
pub mod Ports
pub mod Period
pub mod Measure
pub mod Plan
pub mod Freeze
pub mod Timeline
pub mod Target
pub mod Inv
pub mod Dynamic
