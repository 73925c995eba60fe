-- ===== src/Proto/Cell.antt =====
-- crates/oxutrm-proto/src/cell.rs: one character position.
use oxutrm.Base.{ℕ, ℕ_discrete, [], ◌∷◌}
use oxutrm.Proto.Text.{Text}

pub data Color : Type 0 where
  default : Color
  idx : ℕ → Color
  rgb : ℕ → ℕ → ℕ → Color

-- The bits of `Attrs` (u16); WIDE_CONT is the ninth.
abbrev pub wide_cont : ℕ
wide_cont = 0b1_0000_0000

pub record Cell : Type 0 where
  pub text : Text
  pub fg : Color
  pub bg : Color
  pub attrs : ℕ  -- u16
  pub link : ℕ  -- u16

unfoldable pub Cell-discrete : Discrete Cell
Cell-discrete = hlevel ℕ_discrete

abbrev pub blank : Cell
blank = record { text = 0x20 ∷ []; fg = default; bg = default; attrs = 0; link = 0 }
