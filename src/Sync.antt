-- ===== src/Sync.antt =====
-- crates/oxutrm-sync/src: replicated state and the diffs between versions of it.
pub mod State
pub mod Channel
pub mod Link
pub mod Input
pub mod Screen
