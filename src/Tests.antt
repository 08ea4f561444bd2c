-- ===== src/Tests.antt =====
-- Runs of the model at fixed inputs, and the theorems at inputs that meet their hypotheses.
mod Liveboot
mod Sysupdate
mod Erofs
mod Resume
mod Plan
mod Rootfs
mod Verify
mod Blob
mod Platform
mod Kargs
mod Policy
mod Iso
mod Diff
mod MemStorage
mod Cpio
