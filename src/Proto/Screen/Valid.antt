-- ===== src/Proto/Screen/Valid.antt =====
-- The invariants of one state, as propositions: what `validate` accepts.
use mathlib.Core.Logic.{◌↔◌}
use oxutrm.Base.{
  ◌*◌, ◌≤◌, ◌<◌, ◌≡◌, ◌≢◌, ◌⊎◌, inl, inr, List, [], ◌∷◌, Option, none, some, All, ok, arith, length,
  Option-cases, ge→ltb, refl, >>-eq-ok,
}
use oxutrm.Base.SortedMap.{get}
use oxutrm.Proto.Types.{
  TextField, max_screen_dim, max_screen_cells, max_cell_text, max_title, max_clipboard, max_links,
  check_bounds, check_bounds-ok,
}
use oxutrm.Proto.Text.{byte_len, check_text, check_cell_text, check_title}
use oxutrm.Proto.Text.Spec.{IsText, check_text_iff}
use oxutrm.Proto.Cell.{Cell}
use oxutrm.Proto.Clipboard.{Clipboard, ClipboardCopy, check_clipboard}
use oxutrm.Proto.Links.{Uri, LinkTable, check_links}
use oxutrm.Proto.Links.Spec.{IsEntry, links_iff}
use oxutrm.Proto.Screen.{ScreenState, check_cells, check_cell_links, check_shape, validate}

abbrev pub CopyFits : Option ClipboardCopy → Type 0
CopyFits none = Unit {0}
CopyFits (some copy) = byte_len copy.text ≤ max_clipboard

-- A cell's link is none, or one of the table.
abbrev pub IsLinked : LinkTable → Cell → Type 0
IsLinked links c = (c.link ≡ 0) ⊎ ((uri : Uri) × (get c.link links ≡ some uri))

pub record IsValid (s : ScreenState) : Type 0 where
  pub sized :
      (s.rows ≤ max_screen_dim) × (s.cols ≤ max_screen_dim) × (s.rows * s.cols ≤ max_screen_cells)
  pub exact : length s.cells ≡ s.rows * s.cols
  pub numbered : s.seq ≢ 0
  pub cursor_inside : s.rows * s.cols ≢ 0 → (s.cursor.row < s.rows) × (s.cursor.col < s.cols)
  pub texts : All (λ c. IsText max_cell_text c.text) s.cells
  pub title_text : IsText max_title s.title
  pub copy_fits : CopyFits s.clipboard.copy
  pub few_links : length s.links ≤ max_links
  pub entries : All IsEntry s.links
  pub linked : All (IsLinked s.links) s.cells

-- The parts of `validate` that must all pass.
record Passes (s : ScreenState) : Type 0 where
  bounds : check_bounds (record { cols = s.cols; rows = s.rows }) ≡ ok tt
  shape : check_shape s ≡ ok tt
  cells : check_cells s.cells ≡ ok tt
  title : check_title s.title ≡ ok tt
  clipboard : check_clipboard s.clipboard ≡ ok tt
  links : check_links s.links ≡ ok tt
  cell_links : check_cell_links s.links s.cells ≡ ok tt

validate-Passes : (s : ScreenState) → validate s ≡ ok tt → Passes s
unfolding validate
validate-Passes s h =
    let (a, h1) = >>-eq-ok _ _ h in
    let (b, h2) = >>-eq-ok _ _ h1 in
    let (c, h3) = >>-eq-ok _ _ h2 in
    let (d, h4) = >>-eq-ok _ _ h3 in
    let (e, h5) = >>-eq-ok _ _ h4 in
    let (f, g) = >>-eq-ok _ _ h5 in
    record { bounds = a; shape = b; cells = c; title = d; clipboard = e; links = f; cell_links = g }

Passes-validate : (s : ScreenState) → Passes s → validate s ≡ ok tt
unfolding validate
Passes-validate s p =
    rw p.bounds (rw p.shape (rw p.cells (rw p.title (rw p.clipboard (rw p.links p.cell_links)))))

check_cells_iff :
    (cs : List Cell) → (check_cells cs ≡ ok tt) ↔ All (λ c. IsText max_cell_text c.text) cs
unfolding check_cells check_cell_text
check_cells_iff [] = (λ _. tt, λ _. refl)
check_cells_iff (c ∷ cs) =
    let one = check_text_iff c.text TextField.cell_text in
    let rest = check_cells_iff cs in
    (
      λ h. let (a, b) = >>-eq-ok (check_text c.text TextField.cell_text) _ h in (one.0 a, rest.0 b),
      λ h. rw (one.1 h.0) (rest.1 h.1),
    )

IsLinked-iff :
    (links : LinkTable) (cs : List Cell)
    → (check_cell_links links cs ≡ ok tt) ↔ All (IsLinked links) cs
unfolding check_cell_links
IsLinked-iff links [] = (λ _. tt, λ _. refl)
IsLinked-iff links (c ∷ cs) = (there (IsLinked-iff links cs).0, back (IsLinked-iff links cs).1)
  where
    there :
        (check_cell_links links cs ≡ ok tt → All (IsLinked links) cs)
        → check_cell_links links (c ∷ cs) ≡ ok tt
        → All (IsLinked links) (c ∷ cs)
    there rest h = elim (Option-cases (get c.link links)) [
      | inl e ↦ (inl (ground arith), rest (ground arith))
      | inr (uri, e) ↦ (inr (uri, e), rest (ground arith))
    ]

    back :
        (All (IsLinked links) cs → check_cell_links links cs ≡ ok tt)
        → All (IsLinked links) (c ∷ cs)
        → check_cell_links links (c ∷ cs) ≡ ok tt
    back rest h = ground (arith, h.0, rest h.1)

shape_there :
    (s : ScreenState)
    → check_shape s ≡ ok tt
    → (length s.cells ≡ s.rows * s.cols)
      × (s.seq ≢ 0)
      × (s.rows * s.cols ≢ 0 → (s.cursor.row < s.rows) × (s.cursor.col < s.cols))
unfolding check_shape
shape_there s h = (ground arith, ground arith, λ nz. ground arith)

shape_back : (s : ScreenState) → IsValid s → check_shape s ≡ ok tt
unfolding check_shape
shape_back s v = ground (arith, v.exact, v.numbered, v.cursor_inside)

pub clipboard_iff : (c : Clipboard) → (check_clipboard c ≡ ok tt) ↔ CopyFits c.copy
unfolding check_clipboard
clipboard_iff c = (there c.copy refl, back c.copy refl)
  where
    there : (o : Option ClipboardCopy) → c.copy ≡ o → check_clipboard c ≡ ok tt → CopyFits o
    there none e h = tt
    there (some copy) e h = ground arith

    back : (o : Option ClipboardCopy) → c.copy ≡ o → CopyFits o → check_clipboard c ≡ ok tt
    back none e h = rw (e, check_clipboard) refl
    back (some copy) e h = rw (e, check_clipboard) (rw (ge→ltb _ _ h) refl)

-- `validate` accepts a state exactly when it keeps the invariants: the size is within its limits and
-- matches the cells, the number is not 0, the cursor of a screen with cells is inside, every text is
-- bounded and free of controls, the copy is bounded, the links are few, numbered from 1 and printable,
-- and each cell's link is 0 or in the table.
pub validate_iff : (s : ScreenState) → (validate s ≡ ok tt) ↔ IsValid s
unfolding check_bounds check_title
validate_iff s = (there, back)
  where
    there : validate s ≡ ok tt → IsValid s
    there h =
        let p = validate-Passes s h in
        let (exact, numbered, inside) = shape_there s p.shape in
        let links = (links_iff s.links).0 p.links in
        record {
          sized = check_bounds-ok _ p.bounds;
          exact = exact;
          numbered = numbered;
          cursor_inside = inside;
          texts = (check_cells_iff s.cells).0 p.cells;
          title_text = (check_text_iff s.title TextField.title).0 p.title;
          copy_fits = (clipboard_iff s.clipboard).0 p.clipboard;
          few_links = links.0;
          entries = links.1;
          linked = (IsLinked-iff s.links s.cells).0 p.cell_links;
        }

    back : IsValid s → validate s ≡ ok tt
    back v = Passes-validate s (record {
      bounds = ground (arith, v.sized);
      shape = shape_back s v;
      cells = (check_cells_iff s.cells).1 v.texts;
      title = (check_text_iff s.title TextField.title).1 v.title_text;
      clipboard = (clipboard_iff s.clipboard).1 v.copy_fits;
      links = (links_iff s.links).1 (v.few_links, v.entries);
      cell_links = (IsLinked-iff s.links s.cells).1 v.linked;
    })
