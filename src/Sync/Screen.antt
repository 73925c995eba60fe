-- ===== src/Sync/Screen.antt =====
-- crates/oxutrm-sync/src/screen.rs: diffing one screen against another.
pub mod Runs
pub mod Patch
pub mod LinkDiff
pub mod Paint
pub mod Marking
pub mod RowPaint
pub mod RowsPaint
pub mod Accept
pub mod RoundTrip
pub mod Contract
pub mod Hostile
use oxutrm.Base.{
  ℕ, ◌+◌, ◌*◌, zero, suc, ℕ_discrete, Bool, not, ◌&&◌, ◌==◌, List, [], ◌∷◌, ◌++◌, Option, none,
  some, ltb, leb, length, replicate, if◌then◌else◌, ite, Result, ok, err, ◌>>=◌, ◌>>◌,
}
use oxutrm.Proto.Types.{
  ApplyError, Checked, TermSize, TermSize-discrete, check_bounds, base_mismatch, too_many_links,
  link_id_zero, max_links,
}
use oxutrm.Proto.Text.{Text, check_title}
use oxutrm.Proto.Cell.{Cell, blank as blank_cell}
use oxutrm.Proto.Clipboard.{Clipboard, Clipboard-discrete, check_clipboard}
use oxutrm.Proto.Links.{Uri, check_link_uri}
use oxutrm.Proto.Screen.{
  Cursor, Cursor-discrete, Modes, Modes-discrete, ScreenState, row, validate_transition,
}
use oxutrm.Sync.State.{SyncState}
use oxutrm.Sync.Screen.Runs.{row_runs}
use oxutrm.Sync.Screen.Patch.{RowPatch, apply_patches}
use oxutrm.Sync.Screen.LinkDiff.{LinkChange, link_changes, all_set, apply_links}

pub record ScreenDiff : Type 0 where
  pub resize : Option TermSize
  pub rows : List RowPatch
  pub cursor : Option Cursor
  pub modes : Option Modes
  pub title : Option Text
  pub bell : Option ℕ
  pub scrollback_len : Option ℕ
  pub clipboard : Option Clipboard
  pub links : List LinkChange

Text-discrete : Discrete Text
Text-discrete = hlevel ℕ_discrete

-- `(new != old).then_some(new)`.
abbrev pub if_new : {A : Type 0} → Discrete A → A → A → Option A
if_new d new old = ite (d new old) none (some new)

abbrev pub or_old : {A : Type 0} → Option A → A → A
or_old none old = old
or_old (some new) old = new

-- The loop over `0..rows` of both diffs: rows `r` to `r + n`, each against the base's row, if any.
unfoldable pub row_patches : (ℕ → Option (List Cell)) → ScreenState → ℕ → ℕ → List RowPatch
row_patches base_row s r zero = []
row_patches base_row s r (suc n) =
    let rest = row_patches base_row s (r + 1) n in
    elim (row_runs (row s r) (base_row r)) [
      | [] ↦ rest
      | run ∷ runs ↦ record { row = r; runs = run ∷ runs } ∷ rest
    ]

unfoldable pub resized : ScreenState → ScreenState → Bool
resized s base = not (s.rows == base.rows && s.cols == base.cols)

unfoldable pub base_row : ScreenState → ScreenState → ℕ → Option (List Cell)
base_row s base r =
    if resized s base then none else if leb base.rows r then none else some (row base r)

abbrev pub size_of : ScreenState → TermSize
size_of s = record { cols = s.cols; rows = s.rows }

unfoldable pub diff_from : ScreenState → ScreenState → ScreenDiff
unfolding Text-discrete
diff_from s base = record {
  resize = if resized s base then some (size_of s) else none;
  rows = row_patches (base_row s base) s 0 s.rows;
  cursor = if_new Cursor-discrete s.cursor base.cursor;
  modes = if_new Modes-discrete s.modes base.modes;
  title = if_new Text-discrete s.title base.title;
  bell = if_new ℕ_discrete s.bell base.bell;
  scrollback_len = if_new ℕ_discrete s.scrollback_len base.scrollback_len;
  clipboard = if_new Clipboard-discrete s.clipboard base.clipboard;
  links = link_changes s.links base.links;
}

unfoldable pub full_diff : ScreenState → ScreenDiff
full_diff s = record {
  resize = some (size_of s);
  rows = row_patches (λ _. none) s 0 s.rows;
  cursor = some s.cursor;
  modes = some s.modes;
  title = some s.title;
  bell = some s.bell;
  scrollback_len = some s.scrollback_len;
  clipboard = some s.clipboard;
  links = all_set s.links;
}

abbrev pub if_some : {A : Type 0} → (A → Checked) → Option A → Checked
if_some check none = ok tt
if_some check (some a) = check a

check_change : LinkChange → Checked
check_change (id, uri) = if id == 0 then err link_id_zero else if_some (check_link_uri id) uri

unfoldable pub check_changes : List LinkChange → Checked
unfolding check_change
check_changes [] = ok tt
check_changes (change ∷ changes) = check_change change >> check_changes changes

-- What `apply` refuses before it applies anything.
unfoldable pub check_diff : ScreenDiff → Checked
check_diff d = do
  if_some check_title d.title
  if_some check_clipboard d.clipboard
  if ltb (2 * max_links) (length d.links)
      then err (too_many_links (length d.links) (2 * max_links))
      else ok tt
  check_changes d.links

-- The resize: the buffer is reallocated blank.
unfoldable pub resize : Option TermSize → ScreenState → Result ApplyError ScreenState
resize none s = ok s
resize (some size) s = do
  check_bounds size
  ok (record s {
    rows = size.rows;
    cols = size.cols;
    cells = replicate (size.rows * size.cols) blank_cell;
  })

unfoldable pub finish : ℕ → ℕ → ScreenDiff → ScreenState → List Cell → ScreenState
finish base target d s cells = record {
  seq = target;
  rows = s.rows;
  cols = s.cols;
  cells = cells;
  cursor = or_old d.cursor s.cursor;
  modes = or_old d.modes s.modes;
  title = or_old d.title s.title;
  bell = or_old d.bell s.bell;
  scrollback_len = or_old d.scrollback_len s.scrollback_len;
  clipboard = or_old d.clipboard s.clipboard;
  links = apply_links (if base == 0 then [] else s.links) d.links;
}

unfoldable pub apply : ScreenState → ℕ → ℕ → ScreenDiff → Result ApplyError ScreenState
apply s base target d =
    if not (base == 0) && not (base == s.seq) then err (base_mismatch base s.seq) else do
      check_diff d
      sized ← resize d.resize s
      cells ← apply_patches sized.rows sized.cols sized.cells d.rows
      ok (finish base target d sized cells)

unfoldable pub screen_ops : SyncState ScreenState ScreenDiff
screen_ops = record {
  seq = λ s. s.seq;
  set_seq = λ n s. record s { seq = n };
  validate_transition = validate_transition;
  diff_from = diff_from;
  full_diff = full_diff;
  apply = apply;
}
