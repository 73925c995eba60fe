-- ===== src/Proto/Screen/Window.antt =====
-- A window of a state: what it is, and that it passes `validate`.
use native.Mathlib.Nat.{mul-le-mul_left, mul-le-mul_right}
use oxutrm.Base.{
  ℕ, zero, suc, ◌+◌, ◌*◌, ◌≤◌, ◌<◌, ◌≡◌, ◌≢◌, refl, ap, ◌∙◌, inl, inr, List, [], ◌∷◌, map, All,
  length, take, drop, min, arith, Bool-cases, length-append, length-take, length-drop, All-take,
  All-drop, All-append,
}
use oxutrm.Proto.Types.{TermSize, max_cell_text}
use oxutrm.Proto.Text.Spec.{IsText}
use oxutrm.Proto.Cell.{Cell}
use oxutrm.Proto.Screen.{
  ScreenState, row, unlinked, cut_pair, blank_last, window_row, window_rows, window_top,
  window_cursor, window,
}
use oxutrm.Proto.Screen.Valid.{IsLinked, IsValid}

-- A cell whose text may be painted and that links nowhere.
abbrev Plain : Cell → Type 0
Plain c = IsText max_cell_text c.text × (c.link ≡ 0)

abbrev Painted : Cell → Type 0
Painted c = IsText max_cell_text c.text

Plain-unlinked : (cs : List Cell) → All Painted cs → All Plain (map unlinked cs)
unfolding unlinked
Plain-unlinked [] h = tt
Plain-unlinked (c ∷ cs) h = ((h.0, refl), Plain-unlinked cs h.1)

length-unlinked : (cs : List Cell) → length (map unlinked cs) ≡ length cs
length-unlinked [] = refl
length-unlinked (c ∷ cs) = ap suc (length-unlinked cs)

Plain-blank_last : (cs : List Cell) → All Plain cs → All Plain (blank_last cs)
unfolding blank_last
Plain-blank_last [] h = tt
Plain-blank_last (c ∷ []) h =
    (((omega arith, ((omega arith, omega arith, inl (omega arith)), tt)), h.0.1), tt)
Plain-blank_last (c ∷ d ∷ cs) h = (h.0, Plain-blank_last (d ∷ cs) h.1)

length-blank_last : (cs : List Cell) → length (blank_last cs) ≡ length cs
unfolding blank_last
length-blank_last [] = refl
length-blank_last (c ∷ []) = refl
length-blank_last (c ∷ d ∷ cs) = ap suc (length-blank_last (d ∷ cs))

module _ (cols full : ℕ) (cs : List Cell) where
  Plain-window_row : All Painted cs → All Plain (window_row cols full cs)
  unfolding window_row
  Plain-window_row h =
      let kept = Plain-unlinked (take cols cs) (All-take Painted cols cs h) in
      elim (Bool-cases (cut_pair cols full cs)) [
        | inl e ↦ rw e (Plain-blank_last _ kept)
        | inr e ↦ rw e kept
      ]

  length-window_row : cols ≤ length cs → length (window_row cols full cs) ≡ cols
  unfolding window_row
  length-window_row h =
      let kept = length-unlinked (take cols cs) ∙ length-take cols cs h in
      elim (Bool-cases (cut_pair cols full cs)) [
        | inl e ↦ rw e (length-blank_last _ ∙ kept)
        | inr e ↦ rw e kept
      ]

module _ (s : ScreenState) (valid : IsValid s) where
  Plain-window_rows : (cols r n : ℕ) → All Plain (window_rows s cols r n)
  unfolding window_rows
  Plain-window_rows cols r zero = tt
  Plain-window_rows cols r (suc n) =
      All-append Plain (window_row cols s.cols (row s r)) (window_rows s cols (r + 1) n)
        (Plain-window_row cols s.cols (row s r)
          (All-take Painted s.cols _ (All-drop Painted (r * s.cols) s.cells valid.texts)))
        (Plain-window_rows cols (r + 1) n)

  length-row : (r : ℕ) → r < s.rows → length (row s r) ≡ s.cols
  length-row r h =
      let room : r * s.cols + s.cols ≤ s.rows * s.cols = grind arith in
      length-take s.cols (drop (r * s.cols) s.cells)
        (omega (arith, length-drop (r * s.cols) s.cells, valid.exact))

  length-window_rows :
      (cols r n : ℕ) → cols ≤ s.cols → r + n ≤ s.rows → length (window_rows s cols r n) ≡ n * cols
  unfolding window_rows
  length-window_rows cols r zero h k = omega arith
  length-window_rows cols r (suc n) h k =
      let one =
        length-window_row cols s.cols (row s r) (omega (arith, length-row r (omega arith))) in
      let rest = length-window_rows cols (r + 1) n h (omega arith) in
      omega (
        arith,
        one,
        rest,
        length-append (window_row cols s.cols (row s r)) (window_rows s cols (r + 1) n),
      )

IsLinked-Plain : (cs : List Cell) → All Plain cs → All (IsLinked []) cs
IsLinked-Plain [] h = tt
IsLinked-Plain (c ∷ cs) h = (inl h.0.1, IsLinked-Plain cs h.1)

texts-Plain : (cs : List Cell) → All Plain cs → All Painted cs
texts-Plain [] h = tt
texts-Plain (c ∷ cs) h = (h.0.0, texts-Plain cs h.1)

window_top-le : (s : ScreenState) (rows : ℕ) → rows ≤ s.rows → window_top s rows + rows ≤ s.rows
unfolding window_top
window_top-le s rows h = ground arith

product-le : (a b c d : ℕ) → a ≤ c → b ≤ d → a * b ≤ c * d
product-le a b c d h k = omega (arith, mul-le-mul_right b h, mul-le-mul_left c k)

cursor-inside :
    (s : ScreenState) (rows cols top : ℕ)
    → rows * cols ≢ 0
    → ((window_cursor s rows cols top).row < rows) × ((window_cursor s rows cols top).col < cols)
unfolding window_cursor
cursor-inside s zero cols top nz = absurd (nz (omega arith))
cursor-inside s (suc rows) zero top nz = absurd (nz (omega arith))
cursor-inside s (suc rows) (suc cols) top nz = ground arith

-- The window of a state that keeps the invariants keeps them too, and is within the limit that it was
-- asked to fit.
pub window-IsValid :
    (s : ScreenState) (limit : TermSize)
    → IsValid s
    → IsValid (window s limit)
      × ((window s limit).rows ≤ limit.rows)
      × ((window s limit).cols ≤ limit.cols)
unfolding window
window-IsValid s limit valid = (whole, omega arith, omega arith)
  where
    rows : ℕ
    rows = min s.rows limit.rows

    cols : ℕ
    cols = min s.cols limit.cols

    top : ℕ
    top = window_top s rows

    plain : All Plain (window_rows s cols top rows)
    plain = Plain-window_rows s valid cols top rows

    whole : IsValid (window s limit)
    whole = record {
      sized = (
        omega (arith, valid.sized),
        omega (arith, valid.sized),
        omega (arith, valid.sized, product-le rows cols s.rows s.cols (omega arith) (omega arith)),
      );
      exact =
          length-window_rows s valid cols top rows (omega arith)
            (window_top-le s rows (omega arith));
      numbered = omega arith;
      cursor_inside = cursor-inside s rows cols top;
      texts = texts-Plain (window_rows s cols top rows) plain;
      title_text = (omega arith, tt);
      copy_fits = tt;
      few_links = omega arith;
      entries = tt;
      linked = IsLinked-Plain (window_rows s cols top rows) plain;
    }
