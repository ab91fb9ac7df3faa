-- ===== src/Runtime.antt =====
-- pkg/runtime: the states of the VMs and their file.
pub mod State
