-- ===== src/Term/OscGuard/Limits.antt =====
-- The cap of an OSC does not depend on the bytes that the parser leaves out, and what is stored of it
-- on the way is within its cap too.
use oxutrm.Base.{
  le→leb, ge→ltb, ◌+◌, ltb, ltb→ge, ℕ, ◌≤◌, ◌≡◌, refl, ap, Bool, true, false, inl, inr, [], ◌∷◌,
  ◌++◌, ◌==◌, leb, length, length-append, All, Bool-cases, arith,
}
use oxutrm.Proto.Frame.{Bytes}
use oxutrm.Term.OscGuard.{is_over, extended, max_osc_len, before, limit, limit_of, without_controls}
use oxutrm.Term.OscGuard.Reading.{kept}

abbrev pub printable : ℕ → Bool
printable b = leb 0x20 b

abbrev ends_number : ℕ → Bool
ends_number b = b == b';'

digit-cap : (d : ℕ) → (2048 ≤ limit_of (d ∷ [])) × (limit_of (d ∷ []) ≤ 524288)
unfolding limit_of
digit-cap d = ground arith

limit_of-cap : (num : Bytes) → (2048 ≤ limit_of num) × (limit_of num ≤ 524288)
unfolding limit_of
limit_of-cap [] = omega arith
limit_of-cap (d ∷ []) = digit-cap d
limit_of-cap (d ∷ e ∷ num) = omega arith

pub limit-cap : (held : Bytes) → (2048 ≤ limit held) × (limit held ≤ 524288)
unfolding limit
limit-cap held = limit_of-cap (without_controls (before ends_number held))

-- Leaving the controls out first changes nothing.
number_kept :
    (held : Bytes)
    → without_controls (before ends_number (kept printable held))
      ≡ without_controls (before ends_number held)
unfolding without_controls before kept
number_kept [] = refl
number_kept (b ∷ held) = elim (Bool-cases (printable b)) [
  | inl e ↦ rw e (elim (Bool-cases (ends_number b)) [
    | inl s ↦ rw s refl
    | inr s ↦ rw s (rw e (ap (λ (r : Bytes). b ∷ r) (number_kept held)))
  ])
  | inr e ↦
      let s : ends_number b ≡ false = ground (arith, e) in rw e (rw s (rw e (number_kept held)))
]

pub limit-kept : (held : Bytes) → limit (kept printable held) ≡ limit held
unfolding limit
limit-kept held = ap limit_of (number_kept held)

pub kept-le : (held : Bytes) → length (kept printable held) ≤ length held
unfolding kept
kept-le [] = omega arith
kept-le (b ∷ held) = elim (Bool-cases (printable b)) [
  | inl e ↦ rw e (omega (arith, kept-le held))
  | inr e ↦ rw e (omega (arith, kept-le held))
]

pub kept-All : (held : Bytes) → All (λ b. printable b ≡ true) (kept printable held)
unfolding kept
kept-All [] = tt
kept-All (b ∷ held) = elim (Bool-cases (printable b)) [
  | inl e ↦ rw e (e, kept-All held)
  | inr e ↦ rw e (kept-All held)
]

-- The cap is settled by the first two bytes that are stored.
limit_two :
    (d e : ℕ) (xs ys : Bytes)
    → printable d ≡ true
    → printable e ≡ true
    → limit (d ∷ e ∷ xs) ≡ limit (d ∷ e ∷ ys)
unfolding limit limit_of without_controls before
limit_two d e xs ys h k = elim (Bool-cases (ends_number d)) [
  | inl s ↦ rw s refl
  | inr s ↦ elim (Bool-cases (ends_number e)) [
    | inl u ↦ rw s (rw u refl)
    | inr u ↦ rw s (rw u (rw h (rw k refl)))
  ]
]

pub limit_prefix :
    (xs ys : Bytes)
    → All (λ b. printable b ≡ true) xs
    → length (xs ++ ys) ≤ limit (xs ++ ys)
    → length xs ≤ limit xs
limit_prefix [] ys h fits = omega (arith, limit-cap [])
limit_prefix (d ∷ []) ys h fits = omega (arith, limit-cap (d ∷ []))
limit_prefix (d ∷ e ∷ xs) ys h fits =
    omega (arith, limit_two d e xs (xs ++ ys) h.0 h.1.0, length-append xs ys)

-- What fits is held whole, within its cap.
pub not_over :
    (held body : Bytes)
    → is_over held body ≡ false
    → (extended held body ≡ held ++ body) × (length (held ++ body) ≤ limit (held ++ body))
unfolding is_over extended
not_over held body h = elim (Bool-cases (leb (length held + length body) max_osc_len)) [
  | inl e ↦
      let within : ltb (limit (held ++ body)) (length (held ++ body)) ≡ false = (rw e at h) in
      rw e (refl, ltb→ge _ _ within)
  | inr e ↦ absurd (let clash = (rw e at h) in cc)
]

-- A body within its cap is held.
pub fits :
    (held body : Bytes) → length (held ++ body) ≤ limit (held ++ body) → is_over held body ≡ false
unfolding is_over extended
fits held body h =
    let general : length held + length body ≤ max_osc_len =
      omega (arith, limit-cap (held ++ body), length-append held body) in
    rw (le→leb _ _ general) (ge→ltb _ _ h)
