-- ===== src/Base/SortedMap.antt =====
-- `BTreeMap` with numeric keys: its entries in rising order of their keys.
use oxutrm.Base.Tests.{ltb, ◌==◌, if◌then◌else◌}
use Prim.Native.Nat.{ℕ, ◌<◌, ◌≤◌}
use mathlib.Core.Path.{◌≡◌, refl, sym, ap₂, subst, ◌∙◌}
use mathlib.Core.Option.{Option, none, some}
use mathlib.Core.List.{List, [], ◌∷◌}
use native.Mathlib.Omega.{arith}

module _ {V : Type 0} where
  unfoldable pub get : ℕ → List (ℕ × V) → Option V
  get k [] = none
  get k ((j, v) ∷ m) = if j == k then some v else get k m

  unfoldable pub insert : ℕ → V → List (ℕ × V) → List (ℕ × V)
  insert k v [] = (k, v) ∷ []
  insert k v ((j, w) ∷ m) =
      if ltb k j then (k, v) ∷ (j, w) ∷ m else if j == k then (k, v) ∷ m else (j, w) ∷ insert k v m

  unfoldable pub remove : ℕ → List (ℕ × V) → List (ℕ × V)
  remove k [] = []
  remove k ((j, v) ∷ m) = if j == k then m else (j, v) ∷ remove k m

  -- Every key is above the bound.
  abbrev pub Above : ℕ → List (ℕ × V) → Type 0
  Above b [] = Unit
  Above b ((k, v) ∷ m) = (b < k) × Above k m

  abbrev pub IsSorted : List (ℕ × V) → Type 0
  IsSorted [] = Unit
  IsSorted ((k, v) ∷ m) = Above k m

  Above-weaken : (a b : ℕ) (m : List (ℕ × V)) → a < b → Above b m → Above a m
  Above-weaken a b [] h s = tt
  Above-weaken a b ((k, v) ∷ m) h s = (omega arith, s.1)

  pub Above-IsSorted : (b : ℕ) (m : List (ℕ × V)) → Above b m → IsSorted m
  Above-IsSorted b [] s = tt
  Above-IsSorted b ((k, v) ∷ m) s = s.1

  pub get-Above : (k b : ℕ) (m : List (ℕ × V)) → Above b m → k ≤ b → get k m ≡ none
  unfolding get
  get-Above k b [] s h = refl
  get-Above k b ((j, v) ∷ m) s h = ground (arith, get-Above k j m s.1)

  pub get-insert :
      (j k : ℕ) (v : V) (m : List (ℕ × V))
      → get j (insert k v m) ≡ (if k == j then some v else get j m)
  unfolding get insert
  get-insert j k v [] = refl
  get-insert j k v ((i, w) ∷ m) = ground (arith, get-insert j k v m)

  pub get-remove :
      (j k : ℕ) (m : List (ℕ × V))
      → IsSorted m
      → get j (remove k m) ≡ (if k == j then none else get j m)
  unfolding get remove
  get-remove j k [] s = ground arith
  get-remove j k ((i, w) ∷ m) s =
      ground (arith, get-remove j k m (Above-IsSorted i m s), get-Above j i m s)

  insert-Above : (b k : ℕ) (v : V) (m : List (ℕ × V)) → b < k → Above b m → Above b (insert k v m)
  unfolding insert
  insert-Above b k v [] h s = (h, tt)
  insert-Above b k v ((j, w) ∷ m) h s = ground (arith, insert-Above j k v m)

  pub insert-IsSorted : (k : ℕ) (v : V) (m : List (ℕ × V)) → IsSorted m → IsSorted (insert k v m)
  unfolding insert
  insert-IsSorted k v [] s = tt
  insert-IsSorted k v ((j, w) ∷ m) s = ground (arith, insert-Above j k v m)

  remove-Above : (b k : ℕ) (m : List (ℕ × V)) → Above b m → Above b (remove k m)
  unfolding remove
  remove-Above b k [] s = tt
  remove-Above b k ((j, w) ∷ m) s = ground (arith, remove-Above j k m s.1, Above-weaken b j m)

  pub remove-IsSorted : (k : ℕ) (m : List (ℕ × V)) → IsSorted m → IsSorted (remove k m)
  unfolding remove
  remove-IsSorted k [] s = tt
  remove-IsSorted k ((j, w) ∷ m) s = ground (arith, remove-Above j k m s, Above-IsSorted j m s)

  heads_agree :
      (i j : ℕ) (v w : V) (m n : List (ℕ × V))
      → Above i m
      → Above j n
      → ((k : ℕ) → get k ((i, v) ∷ m) ≡ get k ((j, w) ∷ n))
      → (i ≡ j) × (v ≡ w)
  unfolding get
  heads_agree i j v w m n s t h = ground (arith, h i, h j, get-Above i j n t, get-Above j i m s)

  tails_agree :
      (i : ℕ) (v : V) (m n : List (ℕ × V)) (k : ℕ)
      → Above i m
      → Above i n
      → get k ((i, v) ∷ m) ≡ get k ((i, v) ∷ n)
      → get k m ≡ get k n
  unfolding get
  tails_agree i v m n k s t h = ground (arith, get-Above k i m s, get-Above k i n t)

  -- Two maps that answer alike are one.
  pub get_ext :
      (m n : List (ℕ × V)) → IsSorted m → IsSorted n → ((k : ℕ) → get k m ≡ get k n) → m ≡ n
  unfolding get
  get_ext [] [] s t h = refl
  get_ext [] ((j, w) ∷ n) s t h = ground (arith, h j)
  get_ext ((i, v) ∷ m) [] s t h = ground (arith, h i)
  get_ext ((i, v) ∷ m) ((j, w) ∷ n) s t h =
      let (p, q) = heads_agree i j v w m n s t h in
      let t' : Above i n = subst (λ k. Above k n) (sym p) t in
      let h' : (k : ℕ) → get k ((i, v) ∷ m) ≡ get k ((i, v) ∷ n) =
        λ k. h k ∙ ap₂ (λ a b. get k ((a, b) ∷ n)) (sym p) (sym q) in
      ap₂ (λ (e : ℕ × V) (r : List (ℕ × V)). e ∷ r) (ap₂ (λ (a : ℕ) (b : V). (a, b)) p q)
        (get_ext m n (Above-IsSorted i m s) (Above-IsSorted i n t')
          (λ k. tails_agree i v m n k s t' (h' k)))
