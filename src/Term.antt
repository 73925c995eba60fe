-- ===== src/Term.antt =====
-- crates/oxutrm-term: the terminal side of the host.
pub mod OscGuard
