-- ===== src/Install.antt =====
-- internal/install: the delta layers of the dedup layout.
pub mod Diff
