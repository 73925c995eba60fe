-- ===== src/Client.antt =====
-- crates/oxutrm-client: what the client shows.
pub mod Legible
