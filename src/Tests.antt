-- ===== src/Tests.antt =====
-- Concrete inputs, and each theorem that has hypotheses at one of them.
pub mod Net
pub mod Pools
pub mod Addresses
pub mod Ipam
pub mod Allocator
pub mod Codec
pub mod Configurations
pub mod State
pub mod Storage
pub mod Snapshots
pub mod Scripts
pub mod Network
pub mod Taps
pub mod Machines
pub mod Controllers
pub mod Composition
pub mod Files
pub mod Lifecycles
pub mod Images
pub mod Volumes
