-- ===== src/Program.antt =====
-- The program's own crate, src: what a client knows of its link.
pub mod LinkState
pub mod Activity
pub mod Quality
pub mod Roam
