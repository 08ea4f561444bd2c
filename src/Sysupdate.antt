-- ===== src/Sysupdate.antt =====
-- internal/purefs/sysupdate.go: the newest release of a systemd-sysupdate listing.
pub mod Versions
pub mod Patterns
pub mod Release
