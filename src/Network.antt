-- ===== src/Network.antt =====
-- pkg/network: the networks of the VMs on a node.
pub mod Addresses
pub mod Taps
