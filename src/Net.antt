-- ===== src/Net.antt =====
-- crates/oxutrm-net: how the two ends find a path.
pub mod Socketfam
pub mod Priority
pub mod Demux
pub mod Stun
pub mod Ice
