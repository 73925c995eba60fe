-- ===== src/Proto/Types.antt =====
-- crates/oxutrm-proto/src/types.rs and error.rs: the bounds, the sizes and `ApplyError`.
use oxutrm.Base.{
  ℕ, ◌*◌, ◌||◌, ◌≤◌, ◌≡◌, Option, ltb, if◌then◌else◌, Result, ok, err, arith, ℕ_discrete,
}

abbrev pub max_screen_cells : ℕ
max_screen_cells = 262_144

abbrev pub max_screen_dim : ℕ
max_screen_dim = 2048

abbrev pub max_cell_text : ℕ
max_cell_text = 32

abbrev pub max_title : ℕ
max_title = 512

abbrev pub max_clipboard : ℕ
max_clipboard = 256 * 1024

abbrev pub max_link_uri : ℕ
max_link_uri = 2083

abbrev pub max_links : ℕ
max_links = 512

pub data TextField : Type 0 where
  cell_text title clipboard link_uri : TextField

abbrev pub max_bytes : TextField → ℕ
max_bytes TextField.cell_text = max_cell_text
max_bytes TextField.title = max_title
max_bytes TextField.clipboard = max_clipboard
max_bytes TextField.link_uri = max_link_uri

-- The text of `Decode(String)`: which of the source's messages it is, without the words that the
-- codec's own error adds.
pub data DecodeText : Type 0 where
  encoding_diff decoding_diff zstd expands_beyond : DecodeText

pub data ApplyError : Type 0 where
  base_mismatch : ℕ → ℕ → ApplyError
  out_of_bounds : ℕ → ℕ → ApplyError
  decode : DecodeText → ApplyError
  length_mismatch : ℕ → ℕ → ℕ → ApplyError
  cursor_out_of_bounds : ℕ → ℕ → ℕ → ℕ → ApplyError
  run_overflows_row : ℕ → ℕ → ℕ → ApplyError
  seq_zero : ApplyError
  bell_went_backwards : ℕ → ℕ → ApplyError
  clipboard_went_backwards : ℕ → ℕ → ApplyError
  scrollback_shrank : ℕ → ℕ → ApplyError
  screen_too_large : ℕ → ℕ → ApplyError
  control_in_text : TextField → ℕ → ApplyError
  text_too_long : TextField → ℕ → ℕ → ApplyError
  too_many_links : ℕ → ℕ → ApplyError
  link_id_zero : ApplyError
  bad_link_uri : ℕ → Option ℕ → ApplyError
  unknown_link : ℕ → ApplyError

-- What a check of the source returns: `Result<(), ApplyError>`.
abbrev pub Checked : Type 0
Checked = Result ApplyError (Unit {0})

pub record TermSize : Type 0 where
  pub cols : ℕ  -- u16
  pub rows : ℕ  -- u16

pub TermSize-discrete : Discrete TermSize
TermSize-discrete = hlevel ℕ_discrete

unfoldable pub check_bounds : TermSize → Checked
check_bounds s =
    if ltb max_screen_dim s.rows
      || ltb max_screen_dim s.cols
      || ltb max_screen_cells (s.rows * s.cols)
    then err (screen_too_large s.rows s.cols)
    else ok tt

-- What `check_bounds` accepts: both sides and the product are within their limits.
pub check_bounds-ok :
    (s : TermSize)
    → check_bounds s ≡ ok tt
    → (s.rows ≤ max_screen_dim) × (s.cols ≤ max_screen_dim) × (s.rows * s.cols ≤ max_screen_cells)
unfolding check_bounds
check_bounds-ok s h = ground arith
