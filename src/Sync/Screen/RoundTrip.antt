-- ===== src/Sync/Screen/RoundTrip.antt =====
-- Applying the diff of two legal screens, or the full diff of one, gives the screen.
use oxutrm.Base.{
  ℕ, ◌<◌, ◌*◌, ◌≡◌, refl, sym, ap, ap₂, subst, subst₂, ◌∙◌, ◌⊎◌, inl, inr, true, false, not, ◌&&◌,
  ◌==◌, List, [], ◌∷◌, Option, none, some, ok, All, length, length-replicate, replicate, drop,
  arith, Bool-cases, leb, ℕ_discrete, if◌then◌else◌,
}
use oxutrm.Base.SortedMap.{IsSorted}
use oxutrm.Proto.Types.{TextField, check_bounds}
use oxutrm.Proto.Text.{check_title, check_cell_text}
use oxutrm.Proto.Text.Spec.{IsText, check_text_iff}
use oxutrm.Proto.Cell.{Cell, blank as blank_cell}
use oxutrm.Proto.Clipboard.{Clipboard-discrete, check_clipboard}
use oxutrm.Proto.Links.Spec.{entries_iff}
use oxutrm.Proto.Screen.{ScreenState, Cursor-discrete, Modes-discrete, row_of}
use oxutrm.Proto.Screen.Valid.{IsValid, clipboard_iff}
use oxutrm.Sync.Screen.Patch.{apply_patches}
use oxutrm.Sync.Screen.LinkDiff.{link_changes, apply_links}
use oxutrm.Sync.Screen.LinkDiff.Laws.{
  apply_links-link_changes, apply_links-all_set, length-link_changes, length-all_set,
}
use oxutrm.Sync.Screen.Paint.{TextOk}
use oxutrm.Sync.Screen.RowsPaint.{rows_paint}
use oxutrm.Sync.Screen.Accept.{
  or_old-if_new, if_some-if_new, check_changes-link_changes, check_changes-all_set, check_diff-ok,
}
use oxutrm.Sync.Screen.{
  ScreenDiff, Text-discrete, row_patches, resized, base_row, size_of, diff_from, full_diff,
  check_diff, resize, finish, apply,
}

-- A state that validates, with its link table in order, as a `BTreeMap` is by construction.
pub record IsScreen (s : ScreenState) : Type 0 where
  pub valid : IsValid s
  pub sorted : IsSorted s.links

cell_texts : (cs : List Cell) → All (λ c. IsText 32 c.text) cs → All TextOk cs
unfolding check_cell_text
cell_texts [] h = tt
cell_texts (c ∷ cs) h = ((check_text_iff c.text TextField.cell_text).1 h.0, cell_texts cs h.1)

-- `apply`, once each of its steps succeeds.
apply_steps :
    (held : ScreenState) (base target : ℕ) (d : ScreenDiff) (sized : ScreenState)
    (cells : List Cell)
    → (not (base == 0) && not (base == held.seq)) ≡ false
    → check_diff d ≡ ok tt
    → resize d.resize held ≡ ok sized
    → apply_patches sized.rows sized.cols sized.cells d.rows ≡ ok cells
    → apply held base target d ≡ ok (finish base target d sized cells)
unfolding apply
apply_steps held base target d sized cells based checked size painted =
    rw based (rw checked (rw size (rw painted refl)))

module _ (s : ScreenState) (good : IsScreen s) where
  -- All rows, painted over a buffer of the right size.
  all_rows :
      (old : List Cell) (known_rows : ℕ → Option (List Cell))
      → length old ≡ s.rows * s.cols
      → ((r : ℕ) → (known_rows r ≡ none) ⊎ (known_rows r ≡ some (row_of s.cols old r)))
      → apply_patches s.rows s.cols old (row_patches known_rows s 0 s.rows) ≡ ok s.cells
  all_rows old known_rows size known =
      let z : 0 * s.cols ≡ 0 = omega arith in
      let narrow : s.cols < 65536 = omega (arith, good.valid.sized) in
      subst
        (λ k.
          apply_patches s.rows s.cols (drop k old) (row_patches known_rows s 0 s.rows)
          ≡ ok (drop k s.cells))
        z
        (rows_paint s old known_rows narrow good.valid.exact size
          (cell_texts s.cells good.valid.texts) known s.rows 0 [] (omega arith) (omega arith))

  title_ok : check_title s.title ≡ ok tt
  unfolding check_title
  title_ok = (check_text_iff s.title TextField.title).1 good.valid.title_text

  clipboard_ok : check_clipboard s.clipboard ≡ ok tt
  clipboard_ok = (clipboard_iff s.clipboard).1 good.valid.copy_fits

  bounds_ok : check_bounds (size_of s) ≡ ok tt
  unfolding check_bounds
  bounds_ok = ground (arith, good.valid.sized)

  -- The held screen after a resize to this one's size.
  reallocated : ScreenState → ScreenState
  reallocated held = record held {
    rows = s.rows;
    cols = s.cols;
    cells = replicate (s.rows * s.cols) blank_cell;
  }

  resize-ok : (held : ScreenState) → resize (some (size_of s)) held ≡ ok (reallocated held)
  unfolding resize reallocated
  resize-ok held = rw bounds_ok refl

  -- Every part is sent or was the same, so the result is this screen.
  finish_full : (held : ScreenState) → finish 0 s.seq (full_diff s) (reallocated held) s.cells ≡ s
  unfolding finish full_diff reallocated
  finish_full held = λ i. record s { links = apply_links-all_set s.links [] good.sorted i }

  pub apply-full_diff : (held : ScreenState) → apply held 0 s.seq (full_diff s) ≡ ok s
  unfolding reallocated full_diff
  apply-full_diff held =
      apply_steps held 0 s.seq (full_diff s) (reallocated held) s.cells refl
        (check_diff-ok (full_diff s) title_ok clipboard_ok
          (omega (arith, length-all_set s.links, good.valid.few_links))
          (check_changes-all_set s.links ((entries_iff s.links).1 good.valid.entries)))
        (resize-ok held)
        (all_rows (replicate (s.rows * s.cols) blank_cell) (λ _. none)
          (length-replicate _ blank_cell) (λ _. inl refl))
      ∙ ap (λ (t : ScreenState). ok t) (finish_full held)

  module _ (base : ScreenState) (was : IsScreen base) where
    links_arrive :
        apply_links (if base.seq == 0 then [] else base.links) (link_changes s.links base.links)
        ≡ s.links
    links_arrive =
        let nz : (base.seq == 0) ≡ false = ground (arith, was.valid.numbered) in
        rw nz (apply_links-link_changes s.links base.links good.sorted was.sorted)

    -- The same, over a screen that lends all but the size and the cells.
    finish_diff :
        (buffer : List Cell)
        → finish base.seq s.seq
            (diff_from s base)
            (record base { rows = s.rows; cols = s.cols; cells = buffer })
            s.cells
          ≡ s
    unfolding finish diff_from
    finish_diff buffer = λ i. record {
      seq = s.seq;
      rows = s.rows;
      cols = s.cols;
      cells = s.cells;
      cursor = or_old-if_new Cursor-discrete s.cursor base.cursor i;
      modes = or_old-if_new Modes-discrete s.modes base.modes i;
      title = or_old-if_new Text-discrete s.title base.title i;
      bell = or_old-if_new ℕ_discrete s.bell base.bell i;
      scrollback_len = or_old-if_new ℕ_discrete s.scrollback_len base.scrollback_len i;
      clipboard = or_old-if_new Clipboard-discrete s.clipboard base.clipboard i;
      links = links_arrive i;
    }

    diff_ok : check_diff (diff_from s base) ≡ ok tt
    unfolding diff_from
    diff_ok =
        check_diff-ok (diff_from s base)
          (if_some-if_new Text-discrete check_title s.title base.title title_ok)
          (if_some-if_new Clipboard-discrete check_clipboard s.clipboard base.clipboard
            clipboard_ok)
          (omega (
            arith,
            length-link_changes s.links base.links,
            good.valid.few_links,
            was.valid.few_links,
          ))
          (check_changes-link_changes s.links base.links
            ((entries_iff s.links).1 good.valid.entries)
            ((entries_iff base.links).1 was.valid.entries))

    based : (not (base.seq == 0) && not (base.seq == base.seq)) ≡ false
    based = ground arith

    no_base_rows : resized s base ≡ true → (r : ℕ) → base_row s base r ≡ none
    unfolding base_row
    no_base_rows e r = rw e refl

    apply-resized : resized s base ≡ true → apply base base.seq s.seq (diff_from s base) ≡ ok s
    unfolding diff_from reallocated
    apply-resized e =
        let size : resize (diff_from s base).resize base ≡ ok (reallocated base) =
          rw e (resize-ok base) in
        apply_steps base base.seq s.seq (diff_from s base) (reallocated base) s.cells based diff_ok
          size
          (all_rows (replicate (s.rows * s.cols) blank_cell) (base_row s base)
            (length-replicate _ blank_cell) (λ r. inl (no_base_rows e r)))
        ∙ ap (λ (t : ScreenState). ok t) (finish_diff (replicate (s.rows * s.cols) blank_cell))

    same_size : resized s base ≡ false → (base.rows ≡ s.rows) × (base.cols ≡ s.cols)
    unfolding resized
    same_size e = ground arith

    no_resize : resized s base ≡ false → resize (diff_from s base).resize base ≡ ok base
    unfolding diff_from resize
    no_resize e = rw e refl

    base_rows_known :
        resized s base ≡ false
        → (r : ℕ)
        → (base_row s base r ≡ none) ⊎ (base_row s base r ≡ some (row_of s.cols base.cells r))
    unfolding base_row
    base_rows_known e r = elim (Bool-cases (leb base.rows r)) [
      | inl below ↦ inl (rw e (rw below refl))
      | inr has ↦ inr (rw e (rw has (ap (λ k. some (row_of k base.cells r)) (same_size e).1)))
    ]

    apply-same_size : resized s base ≡ false → apply base base.seq s.seq (diff_from s base) ≡ ok s
    unfolding diff_from
    apply-same_size e =
        let (p, q) = same_size e in
        let size : resize (diff_from s base).resize base ≡ ok base = no_resize e in
        let fits : length base.cells ≡ s.rows * s.cols = was.valid.exact ∙ ap₂ (λ a b. a * b) p q in
        let painted =
          subst₂ (λ a b. apply_patches a b base.cells (diff_from s base).rows ≡ ok s.cells) (sym p)
            (sym q) (all_rows base.cells (base_row s base) fits (base_rows_known e)) in
        apply_steps base base.seq s.seq (diff_from s base) base s.cells based diff_ok size painted
        ∙ ap (λ t. ok (finish base.seq s.seq (diff_from s base) t s.cells))
            (λ i. record base { rows = p i; cols = q i })
        ∙ ap (λ (t : ScreenState). ok t) (finish_diff base.cells)

    pub apply-diff_from : apply base base.seq s.seq (diff_from s base) ≡ ok s
    apply-diff_from = elim (Bool-cases (resized s base)) [
      | inl e ↦ apply-resized e
      | inr e ↦ apply-same_size e
    ]

-- Between two screens that validate, each with its link table in key order: the diff, applied to the
-- base that it was made from, gives the new screen, whether or not the size changed, and the full diff
-- gives it over any screen at all.
pub screen_diff_round_trip :
    (s base held : ScreenState)
    → IsScreen s
    → IsScreen base
    → (apply base base.seq s.seq (diff_from s base) ≡ ok s)
      × (apply held 0 s.seq (full_diff s) ≡ ok s)
screen_diff_round_trip s base held good was =
    (apply-diff_from s good base was, apply-full_diff s good held)
