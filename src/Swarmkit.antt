-- ===== src/Swarmkit.antt =====
-- pkg/swarmkit/executor.go: the controller of one task, and the resources of the node.
pub mod Api
pub mod Convert
pub mod Controller
pub mod Resources
pub mod Translator
pub mod Vmm
pub mod Composition
