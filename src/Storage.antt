-- ===== src/Storage.antt =====
-- pkg/storage: volumes, their metadata and directories, and quotas.
pub mod Trees
pub mod Meta
pub mod Manager
pub mod Names
pub mod Volume
pub mod Quota
