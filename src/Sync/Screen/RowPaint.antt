-- ===== src/Sync/Screen/RowPaint.antt =====
-- Painting the runs that `row_runs` makes of a row gives that row.
use native.Mathlib.Numerals.{add-one}
use oxutrm.Base.{
  take-append-drop, ℕ, zero, suc, ◌+◌, ◌*◌, ◌≤◌, ◌<◌, ◌≡◌, refl, sym, ap, subst, ◌∙◌, true, false,
  List, [], ◌∷◌, ◌++◌, append_assoc, All, length, length-append, length-replicate, drop, take,
  length-drop, replicate, arith, Bool-cases, inl, inr, ltb, ok, none, some,
}
use oxutrm.Proto.Cell.{Cell}
use oxutrm.Sync.Screen.Runs.{Run, u16, Mark, marks, repeats, scan, row_runs}
use oxutrm.Sync.Screen.Patch.{apply_runs}
use oxutrm.Sync.Screen.Paint.{TextOk, apply_runs-flush, apply_runs-repeated}
use oxutrm.Sync.Screen.Marking.{
  targets, Agrees, targets-marks, length-marks, Agrees-marks_self, Agrees-marks_none, repeats-le,
  targets-repeats, Agrees-drop, texts-drop, texts-push, start_of-eq,
}

-- Moving brackets, for the buffer's shape.
regroup : (a b c d : List Cell) → (a ++ (b ++ c)) ++ d ≡ a ++ (b ++ (c ++ d))
regroup a b c d = simp append_assoc

module _ (row cols : ℕ) (narrow : cols < 65536) where
  -- What painting the scan of these marks gives, from any column on.
  abbrev Paints : ℕ → ℕ → ℕ → List Cell → List Mark → Type 0
  Paints fuel col start literal ms =
      (before old cur after : List Cell)
      → length before ≡ row * cols + start
      → length old ≡ length literal
      → Agrees cur ms
      → apply_runs row cols (before ++ (old ++ (cur ++ after))) (scan fuel col start literal ms)
        ≡ ok (before ++ (literal ++ (targets ms ++ after)))

  module _ (fuel col start : ℕ) (literal : List Cell) (c : Cell) (ms : List Mark)
      (at_col : start + length literal ≡ col) (texts : All TextOk literal) (text : TextOk c) where
    unchanged-Paints :
        col + 1 ≤ cols
        → Paints fuel (col + 1) (col + 1) [] ms
        → Paints (suc fuel) col start literal ((c, false) ∷ ms)
    unfolding scan
    unchanged-Paints fits rest before old [] after at same agrees = absurd agrees
    unchanged-Paints fits rest before old (x ∷ xs) after at same agrees =
        apply_runs-flush row cols narrow before old literal (x ∷ xs ++ after) start _ at same
          (omega arith) texts
        ∙ ap (λ b. apply_runs row cols b (scan fuel (col + 1) (col + 1) [] ms))
            (sym (regroup before literal (x ∷ []) (xs ++ after)))
        ∙ rest (before ++ (literal ++ x ∷ [])) [] xs after
            (omega
              (arith, length-append before (literal ++ x ∷ []), length-append literal (x ∷ [])))
            refl agrees.1
        ∙ ap (λ (b : List Cell). ok b) (regroup before literal (x ∷ []) (targets ms ++ after))
        ∙ ap (λ (y : Cell). ok (before ++ (literal ++ y ∷ (targets ms ++ after)))) (agrees.0 refl)

    single-Paints :
        ltb 0 (repeats c ms) ≡ false
        → Paints fuel (col + 1) start (literal ++ c ∷ []) ms
        → Paints (suc fuel) col start literal ((c, true) ∷ ms)
    unfolding scan
    single-Paints e rest before old [] after at same agrees = absurd agrees
    single-Paints e rest before old (x ∷ xs) after at same agrees =
        rw (e, start_of-eq literal start col at_col)
          (ap
              (λ b.
                apply_runs row cols (before ++ b)
                  (scan fuel (col + 1) start (literal ++ c ∷ []) ms))
              (sym (append_assoc old (x ∷ []) (xs ++ after)))
            ∙ rest before (old ++ x ∷ []) xs after at
                (omega (arith, length-append old (x ∷ []), length-append literal (c ∷ []), same))
                agrees.1
            ∙ ap (λ (b : List Cell). ok (before ++ b))
                (append_assoc literal (c ∷ []) (targets ms ++ after)))

    module _ (n : ℕ) (is : repeats c ms ≡ n) where
      same_cells : replicate (n + 1) c ++ targets (drop n ms) ≡ c ∷ targets ms
      same_cells = rw add-one (
          ap (λ (r : List Cell). c ∷ r)
            (subst (λ k. replicate k c ++ targets (drop k ms) ≡ targets ms) is
              (targets-repeats c ms)))

      -- The buffer, cut where the run goes.
      cut :
          (before xs after : List Cell) (x : Cell)
          → before ++ (literal ++ x ∷ (xs ++ after))
            ≡ (before ++ literal) ++ ((x ∷ take n xs) ++ (drop n xs ++ after))
      cut before xs after x =
          ap (λ (ys : List Cell). before ++ (literal ++ x ∷ (ys ++ after)))
            (sym (take-append-drop n xs))
          ∙ (simp append_assoc)

      joined :
          (before after : List Cell)
          → ((before ++ literal) ++ replicate (n + 1) c) ++ (targets (drop n ms) ++ after)
            ≡ before ++ (literal ++ c ∷ (targets ms ++ after))
      joined before after =
          append_assoc (before ++ literal) (replicate (n + 1) c) (targets (drop n ms) ++ after)
          ∙ ap (λ (r : List Cell). (before ++ literal) ++ r)
              (sym (append_assoc (replicate (n + 1) c) (targets (drop n ms)) after)
                ∙ ap (λ (r : List Cell). r ++ after) same_cells)
          ∙ append_assoc before literal (c ∷ targets ms ++ after)

      collapsed-Paints :
          ltb 0 n ≡ true
          → col + (n + 1) ≤ cols
          → Paints fuel (col + (n + 1)) (col + (n + 1)) [] (drop n ms)
          → Paints (suc fuel) col start literal ((c, true) ∷ ms)
      unfolding scan
      collapsed-Paints e fits rest before old [] after at same agrees = absurd agrees
      collapsed-Paints e fits rest before old (x ∷ xs) after at same agrees =
          let size = (Agrees-drop n xs ms agrees.1 (omega (arith, is, repeats-le c ms))).1 in
          let left = (Agrees-drop n xs ms agrees.1 (omega (arith, is, repeats-le c ms))).0 in
          let at' : length (before ++ literal) ≡ row * cols + col =
            omega (arith, length-append before literal) in
          let later : List Run = scan fuel (col + (n + 1)) (col + (n + 1)) [] (drop n ms) in
          let runs : List Run =
            record { start_col = u16 col; repeat = u16 n; cells = c ∷ [] } ∷ later in
          rw is (
            rw e (
              apply_runs-flush row cols narrow before old literal (x ∷ xs ++ after) start _ at same
                (omega arith) texts
              ∙ ap (λ b. apply_runs row cols b runs) (cut before xs after x)
              ∙ apply_runs-repeated row cols narrow (before ++ literal) (x ∷ take n xs) c
                  (drop n xs ++ after) col n _ at' (omega arith) fits text
              ∙ ap
                  (λ b.
                    apply_runs row cols b
                      (scan fuel (col + (n + 1)) (col + (n + 1)) [] (drop n ms)))
                  (sym
                    (append_assoc (before ++ literal) (replicate (n + 1) c) (drop n xs ++ after)))
              ∙ rest ((before ++ literal) ++ replicate (n + 1) c) [] (drop n xs) after
                  (omega (
                    arith,
                    at',
                    length-append (before ++ literal) (replicate (n + 1) c),
                    length-replicate (n + 1) c,
                  ))
                  refl left
              ∙ ap (λ (b : List Cell). ok b) (joined before after)))

  finish-Paints :
      (fuel col start : ℕ) (literal : List Cell)
      → start + length literal ≡ col
      → col ≤ cols
      → All TextOk literal
      → Paints (suc fuel) col start literal []
  unfolding scan apply_runs
  finish-Paints fuel col start literal at_col fits texts before old [] after at same agrees =
      apply_runs-flush row cols narrow before old literal after start [] at same (omega arith) texts
  finish-Paints fuel col start literal at_col fits texts before old (x ∷ xs) after at same agrees =
      absurd agrees

  -- Enough fuel is one round for each cell and one more.
  scan-Paints :
      (fuel col start : ℕ) (literal : List Cell) (ms : List Mark)
      → start + length literal ≡ col
      → col + length ms ≤ cols
      → length ms < fuel
      → All TextOk literal
      → All TextOk (targets ms)
      → Paints fuel col start literal ms
  scan-Paints zero col start literal ms at_col fits enough texts left = absurd (omega arith)
  scan-Paints (suc fuel) col start literal [] at_col fits enough texts left =
      finish-Paints fuel col start literal at_col (omega arith) texts
  scan-Paints (suc fuel) col start literal ((c, false) ∷ ms) at_col fits enough texts left =
      unchanged-Paints fuel col start literal c ms at_col texts left.0 (omega arith) (
        scan-Paints fuel (col + 1) (col + 1) [] ms (omega arith) (omega arith) (omega arith) tt
          left.1)
  scan-Paints (suc fuel) col start literal ((c, true) ∷ ms) at_col fits enough texts left =
      let again = repeats c ms in
      let le = repeats-le c ms in
      let more =
        scan-Paints fuel (col + (again + 1)) (col + (again + 1)) [] (drop again ms) (omega arith)
          (omega (arith, length-drop again ms)) (omega (arith, length-drop again ms)) tt
          (texts-drop again ms left.1) in
      let one =
        scan-Paints fuel (col + 1) start (literal ++ c ∷ []) ms
          (omega (arith, length-append literal (c ∷ []))) (omega arith) (omega arith)
          (texts-push literal c texts left.0) left.1 in
      elim (Bool-cases (ltb 0 again)) [
        | inl e ↦
            collapsed-Paints fuel col start literal c ms at_col texts left.0 again refl e
              (omega arith) more
        | inr e ↦ single-Paints fuel col start literal c ms at_col texts left.0 e one
      ]

  -- Where a buffer holds the base's row after `row` full rows, and the target's cells all have texts that
  -- `apply` accepts: the runs of the target against that base, painted over the buffer, turn the base's row
  -- into the target's and leave every other cell alone, and so do the runs that are made without a base.
  -- The rows are `cols` cells wide, below 65,536.
  pub row_runs_paint :
      (target base before after : List Cell)
      → length before ≡ row * cols
      → length target ≡ cols
      → length base ≡ cols
      → All TextOk target
      → (apply_runs row cols (before ++ (base ++ after)) (row_runs target (some base))
          ≡ ok (before ++ (target ++ after)))
        × (apply_runs row cols (before ++ (base ++ after)) (row_runs target none)
            ≡ ok (before ++ (target ++ after)))
  unfolding row_runs
  row_runs_paint target base before after at wide same texts = (
    paint base (Agrees-marks_self target base (omega arith)),
    paint [] (Agrees-marks_none target base (omega arith)),
  )
    where
      paint :
          (against : List Cell)
          → Agrees base (marks target against)
          → apply_runs row cols
              (before ++ (base ++ after))
              (scan (length target + 1) 0 0 [] (marks target against))
            ≡ ok (before ++ (target ++ after))
      paint against agrees =
          let is = targets-marks target against in
          let count = length-marks target against in
          scan-Paints (length target + 1) 0 0 [] (marks target against) (omega arith)
            (omega (arith, count)) (omega (arith, count)) tt (subst (All TextOk) (sym is) texts)
            before [] base after (omega arith) refl agrees
          ∙ ap (λ (t : List Cell). ok (before ++ (t ++ after))) is
