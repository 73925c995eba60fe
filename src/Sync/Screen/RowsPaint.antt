-- ===== src/Sync/Screen/RowsPaint.antt =====
-- Painting the patches of all rows gives the whole screen.
use oxutrm.Base.{
  All-take, All-drop, ℕ, zero, suc, ◌+◌, ◌*◌, ◌≤◌, ◌<◌, ◌≡◌, refl, sym, ap, ◌∙◌, List, [], ◌∷◌,
  ◌++◌, append_assoc, All, length, length-append, length-drop, length-take, drop, take-append-drop,
  arith, gt→leb, inl, inr, ◌⊎◌, Result, ok, Option, none, some,
}
use oxutrm.Proto.Types.{ApplyError}
use oxutrm.Proto.Cell.{Cell}
use oxutrm.Proto.Screen.{ScreenState, row, row_of}
use oxutrm.Sync.Screen.Runs.{Run, row_runs}
use oxutrm.Sync.Screen.Patch.{RowPatch, apply_runs, apply_patches}
use oxutrm.Sync.Screen.Paint.{TextOk}
use oxutrm.Sync.Screen.RowPaint.{row_runs_paint}
use oxutrm.Sync.Screen.{row_patches}

List-cases {ℓ} : {A : Type ℓ} (xs : List A) → (xs ≡ []) ⊎ ((y : A) × (ys : List A) × (xs ≡ y ∷ ys))
List-cases [] = inl refl
List-cases (x ∷ xs) = inr (x, xs, refl)

drop_nil {ℓ} : (A : Type ℓ) (m : ℕ) → drop {A = A} m [] ≡ []
drop_nil A zero = refl
drop_nil A (suc m) = refl

drop-drop {ℓ} : {A : Type ℓ} (m n : ℕ) (xs : List A) → drop m (drop n xs) ≡ drop (n + m) xs
drop-drop m zero xs = let e : zero + m ≡ m = omega arith in rw e refl
drop-drop {A} m (suc n) [] = let e : suc n + m ≡ suc (n + m) = omega arith in rw e (drop_nil A m)
drop-drop m (suc n) (x ∷ xs) =
    let e : suc n + m ≡ suc (n + m) = omega arith in rw e (drop-drop m n xs)

drop_end {ℓ} : {A : Type ℓ} (n : ℕ) (xs : List A) → length xs ≤ n → drop n xs ≡ []
drop_end zero [] h = refl
drop_end zero (x ∷ xs) h = absurd (omega arith)
drop_end (suc n) [] h = refl
drop_end (suc n) (x ∷ xs) h = drop_end n xs (omega arith)

-- A buffer from row `r` on is that row and the rest.
split_row :
    (cols r : ℕ) (cells : List Cell)
    → row_of cols cells r ++ drop ((r + 1) * cols) cells ≡ drop (r * cols) cells
split_row cols r cells =
    let e : (r + 1) * cols ≡ r * cols + cols = grind arith in
    rw e (
      ap (λ (xs : List Cell). row_of cols cells r ++ xs) (sym (drop-drop cols (r * cols) cells))
      ∙ take-append-drop cols (drop (r * cols) cells))

length-row_of :
    (rows cols r : ℕ) (cells : List Cell)
    → length cells ≡ rows * cols
    → r < rows
    → length (row_of cols cells r) ≡ cols
length-row_of rows cols r cells h l = length-take cols (drop (r * cols) cells) (
    let room : r * cols + cols ≤ rows * cols = grind arith in
    omega (arith, length-drop (r * cols) cells))

module _ (s : ScreenState) (old : List Cell) (base_row : ℕ → Option (List Cell))
    (narrow : s.cols < 65536) (new_size : length s.cells ≡ s.rows * s.cols)
    (old_size : length old ≡ s.rows * s.cols) (texts : All TextOk s.cells)
    (known : (r : ℕ) → (base_row r ≡ none) ⊎ (base_row r ≡ some (row_of s.cols old r))) where
  open s use {rows, cols, cells}

  one_row :
      (r : ℕ) (done : List Cell)
      → r < rows
      → length done ≡ r * cols
      → apply_runs r cols (done ++ drop (r * cols) old) (row_runs (row s r) (base_row r))
        ≡ ok ((done ++ row s r) ++ drop ((r + 1) * cols) old)
  one_row r done l at =
      let (over, fresh) =
        row_runs_paint r cols narrow (row s r) (row_of cols old r) done (drop ((r + 1) * cols) old)
          at (length-row_of rows cols r cells new_size l) (length-row_of rows cols r old old_size l)
          (All-take TextOk cols (drop (r * cols) cells) (All-drop TextOk (r * cols) cells texts)) in
      let shape = ap (λ (xs : List Cell). done ++ xs) (sym (split_row cols r old)) in
      let after = sym (append_assoc done (row s r) (drop ((r + 1) * cols) old)) in
      let split = done ++ (row_of cols old r ++ drop ((r + 1) * cols) old) in
      ap (λ b. apply_runs r cols b (row_runs (row s r) (base_row r))) shape
      ∙ elim (known r) [
        | inl e ↦ ap (λ b. apply_runs r cols split (row_runs (row s r) b)) e ∙ fresh
        | inr e ↦ ap (λ b. apply_runs r cols split (row_runs (row s r) b)) e ∙ over
      ]
      ∙ ap (λ (b : List Cell). ok b) after

  no_runs :
      (r : ℕ) (buffer : List Cell) {painted : List Cell}
      → apply_runs r cols buffer [] ≡ ok painted
      → buffer ≡ painted
  unfolding apply_runs
  no_runs r buffer h = cc

  patch_step :
      (r : ℕ) (buffer : List Cell) (runs : List Run) (patches : List RowPatch) {painted : List Cell}
      → r < rows
      → apply_runs r cols buffer runs ≡ ok painted
      → apply_patches rows cols buffer (record { row = r; runs = runs } ∷ patches)
        ≡ apply_patches rows cols painted patches
  unfolding apply_patches
  patch_step r buffer runs patches l h = rw (gt→leb rows r l) (rw h refl)

  pub rows_paint :
      (n r : ℕ) (done : List Cell)
      → r + n ≡ rows
      → length done ≡ r * cols
      → apply_patches rows cols (done ++ drop (r * cols) old) (row_patches base_row s r n)
        ≡ ok (done ++ drop (r * cols) cells)
  unfolding row_patches apply_patches
  rows_paint zero r done count at =
      let full : r * cols ≡ rows * cols =
        ap (λ k. k * cols) (let e : r ≡ rows = omega arith in e) in
      ap (λ (xs : List Cell). ok (done ++ xs))
        (drop_end (r * cols) old (omega (arith, full))
          ∙ sym (drop_end (r * cols) cells (omega (arith, full))))
  rows_paint (suc n) r done count at =
      let wide = length-row_of rows cols r cells new_size (omega arith) in
      let next : length (done ++ row s r) ≡ (r + 1) * cols =
        let e : (r + 1) * cols ≡ r * cols + cols = grind arith in
        omega (arith, e, wide, length-append done (row s r)) in
      let rest = rows_paint n (r + 1) (done ++ row s r) (omega arith) next in
      let painted = one_row r done (omega arith) at in
      let shape =
        ap {B = Result ApplyError (List Cell)} (λ b. ok b)
          (append_assoc done (row s r) (drop ((r + 1) * cols) cells)
            ∙ ap (λ (xs : List Cell). done ++ xs) (split_row cols r cells)) in
      elim (List-cases (row_runs (row s r) (base_row r))) [
        | inl e ↦
            let same = no_runs r _ (rw e at painted) in
            rw (e, row_patches)
              (ap (λ b. apply_patches rows cols b (row_patches base_row s (r + 1) n)) same
                ∙ rest
                ∙ shape)
        | inr (run, runs, e) ↦
            rw (e, row_patches)
              (patch_step r _ (run ∷ runs) _ (omega arith) (rw e at painted) ∙ rest ∙ shape)
      ]
