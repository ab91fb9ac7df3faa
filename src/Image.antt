-- ===== src/Image.antt =====
-- pkg/image: the preparation of root file systems from images, with what they run and how it starts.
pub mod Reference
pub mod Text
pub mod Shell
pub mod Oci
pub mod Detector
pub mod Init
pub mod Preparer
pub mod Tar
pub mod Wrapper
