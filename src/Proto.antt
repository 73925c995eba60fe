-- ===== src/Proto.antt =====
-- crates/oxutrm-proto/src: the wire types and the rules that a state obeys.
pub mod Types
pub mod Text
pub mod Cell
pub mod Clipboard
pub mod Frame
pub mod Links
pub mod Ids
pub mod Screen
pub mod Addr
pub mod Rungs
