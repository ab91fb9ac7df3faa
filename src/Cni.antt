-- ===== src/Cni.antt =====
-- pkg/cni: the SwarmKit network allocator over CNI plugins.
pub mod Net
pub mod Ip
pub mod Errors
pub mod Config
pub mod Subnet
pub mod Names
pub mod Pool
pub mod Ipam
pub mod Network
pub mod Provider
pub mod Allocator
pub mod Files
