-- ===== src/Proto/Text/Fit.antt =====
-- Fitting a text: the longest run of its glyphs that its field can hold.
use oxutrm.Base.{
  ℕ, ◌+◌, ◌≤◌, ◌<◌, ◌≡◌, ◌⊎◌, inl, inr, [], ◌∷◌, All, ok, arith, Bool-cases, Result-cases, ltb,
  tests, refl, if◌then◌else◌,
}
use oxutrm.Proto.Types.{TextField, max_bytes, max_cell_text}
use oxutrm.Proto.Text.{
  Text, byte_len, len_utf8, is_control_scalar, check_text, fit_from, fit, check_cell_text,
  fit_cell_text,
}
use oxutrm.Proto.Text.Spec.{IsGlyph, check_text_iff, IsGlyph-there}

-- The scalars of a text that are no controls.
pub glyphs : Text → Text
glyphs [] = []
glyphs (c ∷ cs) = if is_control_scalar c then glyphs cs else c ∷ glyphs cs

-- `cut` is as much of `whole` as fits after n bytes.
abbrev pub IsCut : ℕ → ℕ → Text → Text → Type 0
IsCut limit n [] [] = Unit {0}
IsCut limit n [] (c ∷ whole) = limit < n + len_utf8 c
IsCut limit n (d ∷ cut) [] = ⊥
IsCut limit n (d ∷ cut) (c ∷ whole) = (d ≡ c) × IsCut limit (n + len_utf8 c) cut whole

fit_from-IsCut : (limit n : ℕ) (t : Text) → IsCut limit n (fit_from limit n t) (glyphs t)
unfolding fit_from glyphs
fit_from-IsCut limit n [] = tt
fit_from-IsCut limit n (c ∷ t) = elim (Bool-cases (is_control_scalar c)) [
  | inl e ↦ rw e (fit_from-IsCut limit n t)
  | inr e ↦ elim (Bool-cases (ltb limit (n + len_utf8 c))) [
    | inl over ↦ rw (e, over) (omega tests)
    | inr room ↦ rw (e, room) (refl, fit_from-IsCut limit (n + len_utf8 c) t)
  ]
]

fit_from-bounded : (limit n : ℕ) (t : Text) → n ≤ limit → n + byte_len (fit_from limit n t) ≤ limit
unfolding fit_from
fit_from-bounded limit n [] h = omega arith
fit_from-bounded limit n (c ∷ t) h = elim (Bool-cases (is_control_scalar c)) [
  | inl e ↦ rw e (fit_from-bounded limit n t h)
  | inr e ↦ elim (Bool-cases (ltb limit (n + len_utf8 c))) [
    | inl over ↦ rw (e, over) (omega arith)
    | inr room ↦
        rw (e, room) (omega (tests, fit_from-bounded limit (n + len_utf8 c) t (omega tests)))
  ]
]

fit_from-glyphs : (limit n : ℕ) (t : Text) → All IsGlyph (fit_from limit n t)
unfolding fit_from
fit_from-glyphs limit n [] = tt
fit_from-glyphs limit n (c ∷ t) = elim (Bool-cases (is_control_scalar c)) [
  | inl e ↦ rw e (fit_from-glyphs limit n t)
  | inr e ↦ elim (Bool-cases (ltb limit (n + len_utf8 c))) [
    | inl over ↦ rw (e, over) tt
    | inr room ↦ rw (e, room) (IsGlyph-there c e, fit_from-glyphs limit (n + len_utf8 c) t)
  ]
]

fit-ok : (t : Text) (field : TextField) → check_text (fit t (max_bytes field)) field ≡ ok tt
unfolding fit
fit-ok t field = (check_text_iff (fit_from (max_bytes field) 0 t) field).1 (
  omega (arith, fit_from-bounded (max_bytes field) 0 t (omega arith)),
  fit_from-glyphs (max_bytes field) 0 t,
)

-- For every text: the fitted cell text passes the check, and it is the text itself if that passed, or
-- else the text without its controls, cut before the first scalar that would pass the limit of 32
-- bytes.
pub fit_cell_text_lem :
    (t : Text)
    → (check_cell_text (fit_cell_text t) ≡ ok tt)
      × (((check_cell_text t ≡ ok tt) × (fit_cell_text t ≡ t))
          ⊎ IsCut max_cell_text 0 (fit_cell_text t) (glyphs t))
unfolding check_cell_text fit_cell_text
fit_cell_text_lem t = elim (Result-cases (check_text t TextField.cell_text)) [
  | inl (u, e) ↦ rw (e, fit_cell_text) (e, inl (refl, refl))
  | inr (x, e) ↦
      rw (e, fit_cell_text)
        (fit-ok t TextField.cell_text, inr (unfold fit in fit_from-IsCut max_cell_text 0 t))
]
