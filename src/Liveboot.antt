-- ===== src/Liveboot.antt =====
-- internal/liveboot: checks of the inputs of a live boot.
pub mod Outcome
pub mod Dtb
pub mod Pe
pub mod Board
pub mod Inputs
pub mod Kernel
