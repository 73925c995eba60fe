-- ===== src/Sync/Screen/Patch.antt =====
-- crates/oxutrm-sync/src/screen.rs, `RowPatch` and the painting loops of `apply`.
use oxutrm.Base.{
  ℕ, zero, suc, ◌+◌, ◌*◌, List, [], ◌∷◌, ltb, leb, length, set, if◌then◌else◌, Result, ok, err,
  ◌>>=◌, ◌>>◌,
}
use oxutrm.Proto.Types.{ApplyError, out_of_bounds, run_overflows_row}
use oxutrm.Proto.Cell.{Cell}
use oxutrm.Proto.Screen.{check_cells}
use oxutrm.Sync.Screen.Runs.{Run, width}

pub record RowPatch : Type 0 where
  pub row : ℕ  -- u16
  pub runs : List Run

-- The inner painting loop, from index `pos` on. `apply_run` has checked that it stays in the row.
unfoldable pub put_cells : List Cell → ℕ → List Cell → List Cell
put_cells buffer pos [] = buffer
put_cells buffer pos (c ∷ cs) = put_cells (set buffer pos c) (pos + 1) cs

-- The outer one, which runs `times` rounds.
unfoldable pub put_times : ℕ → List Cell → ℕ → List Cell → List Cell
put_times zero buffer pos cells = buffer
put_times (suc times) buffer pos cells =
    put_times times (put_cells buffer pos cells) (pos + length cells) cells

unfoldable pub apply_run : ℕ → ℕ → List Cell → Run → Result ApplyError (List Cell)
unfolding put_cells put_times
apply_run row cols buffer run =
    if ltb cols (run.start_col + width run)
    then err (run_overflows_row row (run.start_col + width run) cols)
    else do
      check_cells run.cells
      ok (put_times (run.repeat + 1) buffer (row * cols + run.start_col) run.cells)

unfoldable pub apply_runs : ℕ → ℕ → List Cell → List Run → Result ApplyError (List Cell)
unfolding apply_run
apply_runs row cols buffer [] = ok buffer
apply_runs row cols buffer (run ∷ runs) = do
  painted ← apply_run row cols buffer run
  apply_runs row cols painted runs

unfoldable pub apply_patches : ℕ → ℕ → List Cell → List RowPatch → Result ApplyError (List Cell)
apply_patches rows cols buffer [] = ok buffer
apply_patches rows cols buffer (patch ∷ patches) =
    if leb rows patch.row then err (out_of_bounds patch.row rows) else do
      painted ← apply_runs patch.row cols buffer patch.runs
      apply_patches rows cols painted patches
