-- ===== src/Proto/Text/Spec.antt =====
-- Which texts the checks of text.rs accept.
use oxutrm.Base.{
  ℕ, ◌≤◌, ◌<◌, ◌≡◌, ◌≢◌, ◌⊎◌, inl, inr, false, [], ◌∷◌, All, find, ok, arith, find-none-All,
  All-find-none, Option-cases, ge→ltb, refl,
}
use mathlib.Core.Logic.{◌↔◌}
use oxutrm.Proto.Types.{TextField, max_bytes}
use oxutrm.Proto.Text.{Text, byte_len, is_control_scalar, check_text}

-- Neither a control of the first 32 scalars, nor DEL, nor one of 0x80 to 0x9f.
abbrev pub IsGlyph : ℕ → Type 0
IsGlyph c = (0x1f < c) × (c ≢ 0x7f) × ((c < 0x80) ⊎ (0x9f < c))

-- I8: bounded, and nothing that the terminal reads as a command.
abbrev pub IsText : ℕ → Text → Type 0
IsText limit text = (byte_len text ≤ limit) × All IsGlyph text

pub IsGlyph-there : (c : ℕ) → is_control_scalar c ≡ false → IsGlyph c
unfolding is_control_scalar
IsGlyph-there c h = ground arith

pub IsGlyph-back : (c : ℕ) → IsGlyph c → is_control_scalar c ≡ false
unfolding is_control_scalar
IsGlyph-back c h = ground arith

glyphs_there : (t : Text) → All (λ c. is_control_scalar c ≡ false) t → All IsGlyph t
glyphs_there [] h = tt
glyphs_there (c ∷ t) h = (IsGlyph-there c h.0, glyphs_there t h.1)

glyphs_back : (t : Text) → All IsGlyph t → All (λ c. is_control_scalar c ≡ false) t
glyphs_back [] h = tt
glyphs_back (c ∷ t) h = (IsGlyph-back c h.0, glyphs_back t h.1)

-- The check accepts a text exactly when it is bounded by its field's limit and all glyphs.
pub check_text_iff :
    (t : Text) (field : TextField) → (check_text t field ≡ ok tt) ↔ IsText (max_bytes field) t
unfolding check_text
check_text_iff t field = (there, back)
  where
    there : check_text t field ≡ ok tt → IsText (max_bytes field) t
    there h = elim (Option-cases (find is_control_scalar t)) [
      | inl e ↦ (ground arith, glyphs_there t (find-none-All is_control_scalar t e))
      | inr (c, e) ↦ absurd (ground arith)
    ]

    back : IsText (max_bytes field) t → check_text t field ≡ ok tt
    back h =
        let e = All-find-none is_control_scalar t (glyphs_back t h.1) in
        rw (ge→ltb _ _ h.0) (rw e refl)
