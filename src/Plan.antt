-- ===== src/Plan.antt =====
-- cmd/tacklebox/build_plan.go: what a build decides from the recipe before it touches the disk.
pub mod Size
pub mod Dedup
pub mod Partitions
pub mod Estimate
