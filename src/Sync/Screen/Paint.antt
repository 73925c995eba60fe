-- ===== src/Sync/Screen/Paint.antt =====
-- Painting the runs of one row: a buffer is seen as what stands before, in and after the place that
-- is written.
use oxutrm.Base.{
  ℕ, zero, suc, ◌+◌, ◌*◌, ◌≤◌, ◌<◌, ◌≡◌, refl, sym, ap, ap₂, ◌∙◌, List, [], ◌∷◌, ◌++◌, append_assoc,
  All, length, length-append, set, replicate, arith, ge→ltb, ok,
}
use oxutrm.Proto.Text.{check_cell_text}
use oxutrm.Proto.Cell.{Cell}
use oxutrm.Proto.Screen.{check_cells}
use oxutrm.Sync.Screen.Runs.{Run, width, u16, flush}
use oxutrm.Sync.Screen.Patch.{put_cells, put_times, apply_run, apply_runs}

set_at :
    (before : List Cell) (o v : Cell) (after : List Cell) (pos : ℕ)
    → length before ≡ pos
    → set (before ++ o ∷ after) pos v ≡ before ++ v ∷ after
set_at [] o v after zero h = refl
set_at [] o v after (suc pos) h = absurd (omega arith)
set_at (b ∷ before) o v after zero h = absurd (omega arith)
set_at (b ∷ before) o v after (suc pos) h =
    ap (λ (r : List Cell). b ∷ r) (set_at before o v after pos (omega arith))

-- Moving the border between what stands before and the rest.
shift :
    (before : List Cell) (x : Cell) (after : List Cell)
    → (before ++ x ∷ []) ++ after ≡ before ++ x ∷ after
shift before x after = append_assoc before (x ∷ []) after

pub put_cells_at :
    (before old cs after : List Cell) (pos : ℕ)
    → length before ≡ pos
    → length old ≡ length cs
    → put_cells (before ++ (old ++ after)) pos cs ≡ before ++ (cs ++ after)
unfolding put_cells
put_cells_at before [] [] after pos h k = refl
put_cells_at before [] (c ∷ cs) after pos h k = absurd (omega arith)
put_cells_at before (o ∷ old) [] after pos h k = absurd (omega arith)
put_cells_at before (o ∷ old) (c ∷ cs) after pos h k =
    ap (λ b. put_cells b (pos + 1) cs)
      (set_at before o c (old ++ after) pos h ∙ sym (shift before c (old ++ after)))
    ∙ put_cells_at (before ++ c ∷ []) old cs after (pos + 1)
        (omega (arith, length-append before (c ∷ []))) (omega arith)
    ∙ shift before c (cs ++ after)

pub put_times_at :
    (n : ℕ) (before old : List Cell) (c : Cell) (after : List Cell) (pos : ℕ)
    → length before ≡ pos
    → length old ≡ n
    → put_times n (before ++ (old ++ after)) pos (c ∷ []) ≡ before ++ (replicate n c ++ after)
unfolding put_times put_cells
put_times_at zero before [] c after pos h k = refl
put_times_at zero before (o ∷ old) c after pos h k = absurd (omega arith)
put_times_at (suc n) before [] c after pos h k = absurd (omega arith)
put_times_at (suc n) before (o ∷ old) c after pos h k =
    ap (λ b. put_times n b (pos + 1) (c ∷ []))
      (set_at before o c (old ++ after) pos h ∙ sym (shift before c (old ++ after)))
    ∙ put_times_at n (before ++ c ∷ []) old c after (pos + 1)
        (omega (arith, length-append before (c ∷ []))) (omega arith)
    ∙ shift before c (replicate n c ++ after)

abbrev pub TextOk : Cell → Type 0
TextOk c = check_cell_text c.text ≡ ok tt

pub check_cells-ok : (cs : List Cell) → All TextOk cs → check_cells cs ≡ ok tt
unfolding check_cells
check_cells-ok [] h = refl
check_cells-ok (c ∷ cs) h = rw (h.0, check_cells-ok cs h.1) refl

module _ (row cols : ℕ) (narrow : cols < 65536) where
  apply_run-ok :
      (buffer : List Cell) (run : Run)
      → run.start_col + width run ≤ cols
      → check_cells run.cells ≡ ok tt
      → apply_run row cols buffer run
        ≡ ok (put_times (run.repeat + 1) buffer (row * cols + run.start_col) run.cells)
  unfolding apply_run
  apply_run-ok buffer run fits texts = rw (ge→ltb _ _ fits) (rw texts refl)

  -- A run of several cells, painted once.
  run_literal :
      (before old cs after : List Cell) (start : ℕ)
      → length before ≡ row * cols + start
      → length old ≡ length cs
      → start + length cs ≤ cols
      → All TextOk cs
      → apply_run row cols
          (before ++ (old ++ after))
          (record { start_col = u16 start; repeat = 0; cells = cs })
        ≡ ok (before ++ (cs ++ after))
  unfolding apply_run put_times
  run_literal before old cs after start at same fits texts =
      let e : u16 start ≡ start = omega arith in
      let run : Run = record { start_col = start; repeat = 0; cells = cs } in
      ap
        (λ k.
          apply_run row cols (before ++ (old ++ after))
            (record { start_col = k; repeat = 0; cells = cs }))
        e
      ∙ apply_run-ok (before ++ (old ++ after)) run (omega arith) (check_cells-ok cs texts)
      ∙ ap (λ (b : List Cell). ok b) (put_cells_at before old cs after (row * cols + start) at same)

  -- One cell, painted `n + 1` times.
  run_repeated :
      (before old : List Cell) (c : Cell) (after : List Cell) (start n : ℕ)
      → length before ≡ row * cols + start
      → length old ≡ n + 1
      → start + (n + 1) ≤ cols
      → TextOk c
      → apply_run row cols
          (before ++ (old ++ after))
          (record { start_col = u16 start; repeat = u16 n; cells = c ∷ [] })
        ≡ ok (before ++ (replicate (n + 1) c ++ after))
  unfolding apply_run
  run_repeated before old c after start n at same fits text =
      let e : u16 start ≡ start = omega arith in
      let m : u16 n ≡ n = omega arith in
      let run : Run = record { start_col = start; repeat = n; cells = c ∷ [] } in
      ap₂
        (λ k r.
          apply_run row cols (before ++ (old ++ after))
            (record { start_col = k; repeat = r; cells = c ∷ [] }))
        e m
      ∙ apply_run-ok (before ++ (old ++ after)) run (omega arith)
          (check_cells-ok (c ∷ []) (text, tt))
      ∙ ap (λ (b : List Cell). ok b)
          (put_times_at (n + 1) before old c after (row * cols + start) at same)

  -- What `flush` puts before the other runs is painted first.
  pub apply_runs-flush :
      (before old literal after : List Cell) (start : ℕ) (runs : List Run)
      → length before ≡ row * cols + start
      → length old ≡ length literal
      → start + length literal ≤ cols
      → All TextOk literal
      → apply_runs row cols (before ++ (old ++ after)) (flush start literal runs)
        ≡ apply_runs row cols (before ++ (literal ++ after)) runs
  unfolding flush apply_runs
  apply_runs-flush before [] [] after start runs at same fits texts = refl
  apply_runs-flush before (o ∷ old) [] after start runs at same fits texts = absurd (omega arith)
  apply_runs-flush before old (c ∷ cs) after start runs at same fits texts =
      rw (run_literal before old (c ∷ cs) after start at same fits texts) refl

  pub apply_runs-repeated :
      (before old : List Cell) (c : Cell) (after : List Cell) (start n : ℕ) (runs : List Run)
      → length before ≡ row * cols + start
      → length old ≡ n + 1
      → start + (n + 1) ≤ cols
      → TextOk c
      → apply_runs row cols
          (before ++ (old ++ after))
          (record { start_col = u16 start; repeat = u16 n; cells = c ∷ [] } ∷ runs)
        ≡ apply_runs row cols (before ++ (replicate (n + 1) c ++ after)) runs
  unfolding apply_runs
  apply_runs-repeated before old c after start n runs at same fits text =
      rw (run_repeated before old c after start n at same fits text) refl
