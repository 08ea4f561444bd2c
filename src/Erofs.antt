-- ===== src/Erofs.antt =====
-- internal/purefs/erofs.go: the writer of EROFS images. Lengths and block numbers are natural numbers;
-- `uint16(v)` and `uint32(v)` are reduced where they stand.
pub mod Dirents
pub mod Inodes
pub mod Links
pub mod Write
