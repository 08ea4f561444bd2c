-- ===== src/Oci.antt =====
-- internal/oci: the registry client's downloads and the reconstruction of an image's root.
pub mod Resume
pub mod Rootfs
pub mod Platform
pub mod Blob
