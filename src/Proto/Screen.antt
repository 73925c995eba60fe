-- ===== src/Proto/Screen.antt =====
-- crates/oxutrm-proto/src/screen.rs: the authoritative picture of a terminal and its invariants.
pub mod Valid
pub mod Window
use oxutrm.Base.{
  ℕ, ◌+◌, ◌-◌, ◌*◌, min, bit_and, ℕ_discrete, Bool, true, false, not, ◌&&◌, ◌||◌, ◌==◌, List, [],
  ◌∷◌, ◌++◌, map, Option, none, some, ltb, leb, length, take, drop, replicate, if◌then◌else◌,
  Result, ok, err, ◌>>=◌, ◌>>◌, zero, suc,
}
use oxutrm.Base.SortedMap.{get}
use oxutrm.Proto.Types.{
  ApplyError, Checked, TermSize, check_bounds, length_mismatch, seq_zero, cursor_out_of_bounds,
  unknown_link, bell_went_backwards, scrollback_shrank, clipboard_went_backwards,
}
use oxutrm.Proto.Text.{Text, check_cell_text, check_title}
use oxutrm.Proto.Cell.{Cell, blank as blank_cell, wide_cont}
use oxutrm.Proto.Clipboard.{Clipboard, no_clipboard, check_clipboard}
use oxutrm.Proto.Links.{LinkTable, check_links}

pub data CursorShape : Type 0 where
  block underline bar : CursorShape

pub record Cursor : Type 0 where
  pub row : ℕ  -- u16
  pub col : ℕ  -- u16
  pub visible : Bool
  pub shape : CursorShape

unfoldable pub Cursor-discrete : Discrete Cursor
Cursor-discrete = hlevel ℕ_discrete

pub data MouseMode : Type 0 where
  off press press_release button_motion any_motion : MouseMode

pub record Modes : Type 0 where
  pub alt_screen : Bool
  pub bracketed_paste : Bool
  pub mouse : MouseMode
  pub app_cursor : Bool
  pub app_keypad : Bool

unfoldable pub Modes-discrete : Discrete Modes
Modes-discrete = hlevel

abbrev pub default_modes : Modes
default_modes = record {
  alt_screen = false;
  bracketed_paste = false;
  mouse = off;
  app_cursor = false;
  app_keypad = false;
}

pub record ScreenState : Type 0 where
  pub seq : ℕ  -- u64
  pub rows : ℕ  -- u16
  pub cols : ℕ  -- u16
  pub cells : List Cell
  pub cursor : Cursor
  pub modes : Modes
  pub title : Text
  pub bell : ℕ  -- u32
  pub scrollback_len : ℕ  -- u64
  pub clipboard : Clipboard
  pub links : LinkTable

-- One row of a row-major buffer.
abbrev pub row_of {ℓ} : {A : Type ℓ} → ℕ → List A → ℕ → List A
row_of cols cells r = take cols (drop (r * cols) cells)

-- `ScreenState::row`, which the source calls with `r < rows` only.
abbrev pub row : ScreenState → ℕ → List Cell
row s r = row_of s.cols s.cells r

-- The first loop of `validate`.
unfoldable pub check_cells : List Cell → Checked
check_cells [] = ok tt
check_cells (c ∷ cs) = check_cell_text c.text >> check_cells cs

contains_key : ℕ → LinkTable → Bool
contains_key id links = elim (get id links) [ none ↦ false | some _ ↦ true ]

-- The second loop of `validate`.
unfoldable pub check_cell_links : LinkTable → List Cell → Checked
unfolding contains_key
check_cell_links links [] = ok tt
check_cell_links links (c ∷ cs) =
    if not (c.link == 0) && not (contains_key c.link links)
    then err (unknown_link c.link)
    else check_cell_links links cs

check_shape : ScreenState → Checked
check_shape s =
    if not (length s.cells == s.rows * s.cols)
    then err (length_mismatch (length s.cells) s.rows s.cols)
    else if s.seq == 0
    then err seq_zero
    else if not (s.rows * s.cols == 0) && (leb s.rows s.cursor.row || leb s.cols s.cursor.col)
    then err (cursor_out_of_bounds s.cursor.row s.cursor.col s.rows s.cols)
    else ok tt

unfoldable pub validate : ScreenState → Checked
unfolding check_shape
validate s = do
  check_bounds (record { cols = s.cols; rows = s.rows })
  check_shape s
  check_cells s.cells
  check_title s.title
  check_clipboard s.clipboard
  check_links s.links
  check_cell_links s.links s.cells

-- I5, I6 and I9: what holds between two states.
check_monotone : ScreenState → ScreenState → Checked
check_monotone s previous =
    if ltb s.bell previous.bell
    then err (bell_went_backwards previous.bell s.bell)
    else if ltb s.scrollback_len previous.scrollback_len
    then err (scrollback_shrank previous.scrollback_len s.scrollback_len)
    else if ltb s.clipboard.serial previous.clipboard.serial
    then err (clipboard_went_backwards previous.clipboard.serial s.clipboard.serial)
    else ok tt

unfoldable pub validate_transition : ScreenState → ScreenState → Checked
unfolding check_monotone
validate_transition s previous = validate s >> check_monotone s previous

blank_state : ℕ → ℕ → ScreenState
blank_state rows cols = record {
  seq = 1;
  rows = rows;
  cols = cols;
  cells = replicate (rows * cols) blank_cell;
  cursor = record { row = 0; col = 0; visible = true; shape = block };
  modes = default_modes;
  title = [];
  bell = 0;
  scrollback_len = 0;
  clipboard = no_clipboard;
  links = [];
}

unfoldable pub blank : ℕ → ℕ → Result ApplyError ScreenState
unfolding blank_state
blank rows cols = do
  check_bounds (record { cols = cols; rows = rows })
  validate (blank_state rows cols)
  ok (blank_state rows cols)

-- The parts of `window`.
abbrev u16_max : ℕ
u16_max = 65535

window_top : ScreenState → ℕ → ℕ
window_top s rows =
    if s.cursor.visible then min (min (s.cursor.row + 1) u16_max - rows) (s.rows - rows) else 0

unlinked : Cell → Cell
unlinked c = record c { link = 0 }

-- Whether the cut at column `cols` splits a wide glyph.
cut_pair : ℕ → ℕ → List Cell → Bool
cut_pair cols full row =
    ltb 0 cols
    && ltb cols full
    && elim (drop cols row) [ [] ↦ false | c ∷ _ ↦ bit_and c.attrs wide_cont == wide_cont ]

blank_last : List Cell → List Cell
blank_last [] = []
blank_last (c ∷ []) = record c { text = 0x20 ∷ []; attrs = 0 } ∷ []
blank_last (c ∷ d ∷ cs) = c ∷ blank_last (d ∷ cs)

window_row : ℕ → ℕ → List Cell → List Cell
unfolding unlinked cut_pair blank_last
window_row cols full row =
    let kept = map unlinked (take cols row) in
    if cut_pair cols full row then blank_last kept else kept

-- `n` rows from row `r` on.
window_rows : ScreenState → ℕ → ℕ → ℕ → List Cell
unfolding window_row
window_rows s cols r zero = []
window_rows s cols r (suc n) = window_row cols s.cols (row s r) ++ window_rows s cols (r + 1) n

window_cursor : ScreenState → ℕ → ℕ → ℕ → Cursor
window_cursor s rows cols top =
    if rows == 0 || cols == 0 then record s.cursor { row = 0; col = 0 } else record s.cursor {
      row = min (s.cursor.row - top) (rows - 1);
      col = min s.cursor.col (cols - 1);
    }

unfoldable pub window : ScreenState → TermSize → ScreenState
unfolding window_top window_rows window_cursor
window s limit =
    let rows = min s.rows limit.rows in
    let cols = min s.cols limit.cols in
    let top = window_top s rows in
    record {
      seq = 1;
      rows = rows;
      cols = cols;
      cells = window_rows s cols top rows;
      cursor = window_cursor s rows cols top;
      modes = default_modes;
      title = [];
      bell = 0;
      scrollback_len = 0;
      clipboard = no_clipboard;
      links = [];
    }
