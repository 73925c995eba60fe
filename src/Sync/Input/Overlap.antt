-- ===== src/Sync/Input/Overlap.antt =====
-- The overlap that `diff_from` finds.
use oxutrm.Base.{
  ℕ, ℕ_discrete, zero, suc, ◌-◌, ◌≤◌, ◌≡◌, refl, sym, ap, ap₂, ◌∙◌, true, [], ◌∷◌, ◌++◌, length,
  drop, arith, Bool-cases, inl, inr, take-append-drop,
}
use oxutrm.Proto.Frame.{Bytes}
use oxutrm.Sync.Input.{bytes_eq, overlaps, largest_overlap}

bytes_eq-eq : (xs ys : Bytes) → bytes_eq xs ys ≡ true → xs ≡ ys
unfolding bytes_eq
bytes_eq-eq [] [] h = refl
bytes_eq-eq [] (b ∷ ys) h = cc
bytes_eq-eq (a ∷ xs) [] h = cc
bytes_eq-eq (a ∷ xs) (b ∷ ys) h =
    let (p, q) : (a ≡ b) × (bytes_eq xs ys ≡ true) = ground arith in
    ap₂ (λ (x : ℕ) (r : Bytes). x ∷ r) p (bytes_eq-eq xs ys q)

pub bytes_eq_refl : (xs : Bytes) → bytes_eq xs xs ≡ true
unfolding bytes_eq
bytes_eq_refl [] = refl
bytes_eq_refl (a ∷ xs) = ground (arith, bytes_eq_refl xs)

pub largest_overlap-le : (k : ℕ) (base new : Bytes) → largest_overlap k base new ≤ k
unfolding largest_overlap
largest_overlap-le zero base new = omega arith
largest_overlap-le (suc k) base new = ground (arith, largest_overlap-le k base new)

pub drop_all : (xs : Bytes) → drop (length xs) xs ≡ []
drop_all [] = refl
drop_all (x ∷ xs) = drop_all xs

-- The kept tail of the base and the appended rest make up the new bytes.
pub largest_overlap-rebuilds :
    (k : ℕ) (base new : Bytes)
    → drop (length base - largest_overlap k base new) base ++ drop (largest_overlap k base new) new
      ≡ new
unfolding largest_overlap overlaps
largest_overlap-rebuilds zero base new =
    let e : length base - 0 ≡ length base = omega arith in
    rw e (ap (λ (xs : Bytes). xs ++ new) (drop_all base))
largest_overlap-rebuilds (suc k) base new = elim (Bool-cases (overlaps (suc k) base new)) [
  | inl e ↦ rw e (
      ap (λ (xs : Bytes). xs ++ drop (suc k) new) (bytes_eq-eq _ _ e)
      ∙ take-append-drop (suc k) new)
  | inr e ↦ rw e (largest_overlap-rebuilds k base new)
]

-- No larger overlap exists.
pub largest_overlap-max :
    (k j : ℕ) (base new : Bytes)
    → j ≤ k
    → overlaps j base new ≡ true
    → j ≤ largest_overlap k base new
unfolding largest_overlap
largest_overlap-max zero j base new h e = h
largest_overlap-max (suc k) j base new h e = elim (Bool-cases (overlaps (suc k) base new)) [
  | inl t ↦ rw t h
  | inr f ↦ elim (ℕ_discrete j (suc k)) [
    | yes same ↦ let clash = sym e ∙ ap (λ i. overlaps i base new) same ∙ f in cc
    | no less ↦ rw f (largest_overlap-max k j base new (omega arith) e)
  ]
]
