-- ===== src/Sync/Screen/Runs.antt =====
-- crates/oxutrm-sync/src/screen.rs, `Run` and `row_runs`: one row as runs of changed cells.
use oxutrm.Base.{
  ℕ, zero, suc, ◌+◌, ◌*◌, ◌%◌, Bool, true, false, not, ◌&&◌, List, [], ◌∷◌, ◌++◌, Option, none,
  some, ltb, length, drop, if◌then◌else◌, ite,
}
use oxutrm.Proto.Cell.{Cell, Cell-discrete}

pub record Run : Type 0 where
  pub start_col : ℕ  -- u16
  pub repeat : ℕ  -- u16
  pub cells : List Cell

abbrev pub width : Run → ℕ
width r = length r.cells * (r.repeat + 1)

-- `as u16`.
abbrev pub u16 : ℕ → ℕ
u16 n = n % 65536

abbrev pub cell_eq : Cell → Cell → Bool
cell_eq a b = ite (Cell-discrete a b) true false

-- A cell of the target, and whether it differs from the base's cell in its column, if there is one.
abbrev pub Mark : Type 0
Mark = Cell × Bool

unfoldable pub marks : List Cell → List Cell → List Mark
marks [] base = []
marks (t ∷ ts) [] = (t, true) ∷ marks ts []
marks (t ∷ ts) (b ∷ bs) = (t, not (cell_eq t b)) ∷ marks ts bs

-- How many of the next cells are the same cell and changed: `run_len - 1`.
unfoldable pub repeats : Cell → List Mark → ℕ
repeats c [] = 0
repeats c ((d, changed) ∷ rest) =
    let more = repeats c rest in if cell_eq d c && changed then suc more else 0

-- The literal that was accumulating goes out before what follows it.
unfoldable pub flush : ℕ → List Cell → List Run → List Run
flush start [] runs = runs
flush start (c ∷ cs) runs = record { start_col = u16 start; repeat = 0; cells = c ∷ cs } ∷ runs

abbrev pub start_of : List Cell → ℕ → ℕ → ℕ
start_of [] start col = col
start_of (_ ∷ _) start col = start

-- Both loops of `row_runs` from column `col` on, one cell or one run at a time.
unfoldable pub scan : ℕ → ℕ → ℕ → List Cell → List Mark → List Run
scan zero col start literal rest = []
scan (suc fuel) col start literal [] = flush start literal []
scan (suc fuel) col start literal ((c, false) ∷ rest) =
    flush start literal (scan fuel (col + 1) (col + 1) [] rest)
scan (suc fuel) col start literal ((c, true) ∷ rest) =
    let again = repeats c rest in
    let collapsed = flush start literal (
      record { start_col = u16 col; repeat = u16 again; cells = c ∷ [] }
      ∷ scan fuel (col + (again + 1)) (col + (again + 1)) [] (drop again rest)) in
    let single = scan fuel (col + 1) (start_of literal start col) (literal ++ c ∷ []) rest in
    if ltb 0 again then collapsed else single

abbrev pub or_nothing : Option (List Cell) → List Cell
or_nothing none = []
or_nothing (some base) = base

unfoldable pub row_runs : List Cell → Option (List Cell) → List Run
unfolding marks repeats flush scan
row_runs target base = scan (length target + 1) 0 0 [] (marks target (or_nothing base))
