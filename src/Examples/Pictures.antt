-- ===== src/Examples/Pictures.antt =====
-- Small screens: a prompt, and what the host shows next.
use mathlib.Core.Logic.{◌↔◌}
use oxutrm.Base.{
  ℕ, ◌≤◌, ◌≡◌, ◌⊎◌, refl, ap, true, List, [], ◌∷◌, ◌++◌, Option, none, some, ok, arith, length, ap₂,
  take, drop, err, take-append_exact, drop-append_exact, ◌∙◌,
}
use oxutrm.Proto.Types.{TermSize, check_bounds}
use oxutrm.Proto.Text.{Text, check_cell_text, check_title, is_control_scalar, fit_cell_text}
use oxutrm.Proto.Cell.{Cell, blank as blank_cell}
use oxutrm.Proto.Clipboard.{no_clipboard, check_clipboard}
use oxutrm.Proto.Frame.{
  Frame, Bytes, FrameFormat, FrameFormatLaws, encode, decode, decode-encode, trailing_bytes,
}
use oxutrm.Proto.Text.Fit.{IsCut, glyphs, fit_cell_text_lem}
use oxutrm.Proto.Links.{LinkTable, check_links, check_entries}
use oxutrm.Proto.Screen.{
  ScreenState, block, default_modes, validate, window, check_cells, check_cell_links,
}
use oxutrm.Proto.Screen.Valid.{IsValid, validate_iff}
use oxutrm.Proto.Screen.Window.{window-IsValid}
use oxutrm.Sync.Channel.{Codec, Receiver, new_receiver, on_frame}
use oxutrm.Sync.Screen.{ScreenDiff, diff_from, full_diff, apply, screen_ops}
use oxutrm.Sync.Screen.Runs.{row_runs}
use oxutrm.Sync.Screen.Patch.{apply_runs}
use oxutrm.Sync.Screen.RowPaint.{row_runs_paint}
use oxutrm.Sync.Screen.LinkDiff.{link_changes, apply_links}
use oxutrm.Sync.Screen.LinkDiff.Laws.{apply_links-link_changes}
use oxutrm.Sync.Screen.RoundTrip.{IsScreen, screen_diff_round_trip}
use oxutrm.Sync.Screen.Contract.{IsLater}
use oxutrm.Sync.Screen.Hostile.{on_frame-IsValid}

abbrev letter : ℕ → Cell
letter c = record blank_cell { text = c ∷ [] }

-- One row of three cells.
abbrev screen : ℕ → List Cell → ScreenState
screen seq cells = record {
  seq = seq;
  rows = 1;
  cols = 3;
  cells = cells;
  cursor = record { row = 0; col = 2; visible = true; shape = block };
  modes = default_modes;
  title = [];
  bell = 0;
  scrollback_len = 0;
  clipboard = no_clipboard;
  links = [];
}

abbrev prompt : ScreenState
prompt = screen 3 (letter 0x24 ∷ blank_cell ∷ blank_cell ∷ [])

abbrev answer : ScreenState
answer = screen 7 (letter 0x6f ∷ letter 0x6b ∷ blank_cell ∷ [])

pictures-IsValid : IsValid prompt × IsValid answer
unfolding validate check_bounds check_cells check_cell_text is_control_scalar check_title
    check_clipboard check_links check_entries check_cell_links
pictures-IsValid = ((validate_iff prompt).0 refl, (validate_iff answer).0 refl)

prompt_good : IsScreen prompt
prompt_good = record { valid = pictures-IsValid.0; sorted = tt }

answer_good : IsScreen answer
answer_good = record { valid = pictures-IsValid.1; sorted = tt }

screen_diff_round_trip_example :
    (apply prompt 3 7 (diff_from answer prompt) ≡ ok answer)
    × (apply prompt 0 7 (full_diff answer) ≡ ok answer)
screen_diff_round_trip_example = screen_diff_round_trip answer prompt prompt answer_good prompt_good

-- A peer that answers every payload with the same diff, whose title is a terminal command.
abbrev hostile : Codec ScreenDiff
hostile = record {
  to_stdvec = λ _. none;
  from_bytes = λ _. some (record (full_diff answer) { title = some (0x1b ∷ 0x5d ∷ []) });
  compress = λ raw. raw;
  zstd_read = λ payload n. none;
}

abbrev hostile_frame : Frame
hostile_frame = record { my_state = 9; from_state = 0; ack_state = 0; flags = 0; payload = [] }

abbrev watching : Receiver ScreenState
watching = new_receiver screen_ops hostile prompt

on_frame-IsValid_example :
    IsValid (on_frame screen_ops hostile watching hostile_frame).0.ring.newest
    × IsLater (on_frame screen_ops hostile watching hostile_frame).0.ring.newest prompt
unfolding new_receiver
on_frame-IsValid_example = on_frame-IsValid hostile watching hostile_frame pictures-IsValid.0

validate_iff_example : (validate answer ≡ ok tt) ↔ IsValid answer
validate_iff_example = validate_iff answer

-- A window one column narrower.
abbrev narrow : TermSize
narrow = record { cols = 2; rows = 5 }

window-IsValid_example :
    IsValid (window answer narrow)
    × ((window answer narrow).rows ≤ 5)
    × ((window answer narrow).cols ≤ 2)
window-IsValid_example = window-IsValid answer narrow pictures-IsValid.1

-- The second row of two, over a base whose row starts alike.
abbrev row_before : List Cell
row_before = letter 0x31 ∷ letter 0x32 ∷ letter 0x33 ∷ []

abbrev row_base : List Cell
row_base = letter 0x61 ∷ letter 0x62 ∷ letter 0x63 ∷ []

abbrev row_target : List Cell
row_target = letter 0x61 ∷ letter 0x7a ∷ letter 0x7a ∷ []

row_runs_paint_example :
    (apply_runs 1 3 (row_before ++ (row_base ++ [])) (row_runs row_target (some row_base))
      ≡ ok (row_before ++ (row_target ++ [])))
    × (apply_runs 1 3 (row_before ++ (row_base ++ [])) (row_runs row_target none)
        ≡ ok (row_before ++ (row_target ++ [])))
unfolding check_cell_text is_control_scalar
row_runs_paint_example =
    row_runs_paint 1 3 (omega arith) row_target row_base row_before [] refl refl refl
      (refl, (refl, (refl, tt)))

abbrev old_links : LinkTable
old_links = (1, 0x61 ∷ []) ∷ (4, 0x62 ∷ []) ∷ []

abbrev new_links : LinkTable
new_links = (2, 0x63 ∷ []) ∷ (4, 0x64 ∷ []) ∷ []

apply_links-link_changes_example :
    apply_links old_links (link_changes new_links old_links) ≡ new_links
apply_links-link_changes_example =
    apply_links-link_changes new_links old_links (omega arith, tt) (omega arith, tt)

-- A cell text that begins with an escape.
abbrev escaped : Text
escaped = 0x1b ∷ 0x61 ∷ []

fit_cell_text_lem_example :
    (check_cell_text (fit_cell_text escaped) ≡ ok tt)
    × (((check_cell_text escaped ≡ ok tt) × (fit_cell_text escaped ≡ escaped))
        ⊎ IsCut 32 0 (fit_cell_text escaped) (glyphs escaped))
fit_cell_text_lem_example = fit_cell_text_lem escaped

-- A format that writes the four numbers, the payload's length and the payload.
abbrev read_frame : Bytes → Option (Frame × Bytes)
read_frame (a ∷ b ∷ c ∷ d ∷ n ∷ rest) = some (
  record { my_state = a; from_state = b; ack_state = c; flags = d; payload = take n rest },
  drop n rest,
)
read_frame _ = none

abbrev frame_bytes : Frame → Bytes
frame_bytes f = f.my_state ∷ f.from_state ∷ f.ack_state ∷ f.flags ∷ length f.payload ∷ f.payload

abbrev plain_format : FrameFormat
plain_format = record { to_stdvec = λ f. some (frame_bytes f); take_from_bytes = read_frame }

read_frame_lem : (f : Frame) (rest : Bytes) → read_frame (frame_bytes f ++ rest) ≡ some (f, rest)
read_frame_lem f rest =
    ap₂ (λ (p : Bytes) (r : Bytes). some (record f { payload = p }, r))
      (take-append_exact (length f.payload) f.payload rest refl)
      (drop-append_exact (length f.payload) f.payload rest refl)

plain_format_laws : FrameFormatLaws plain_format
plain_format_laws = record {
  take-write = λ f bytes rest h.
      ap (λ (b : Bytes). read_frame (b ++ rest)) (let e : bytes ≡ frame_bytes f = cc in e)
      ∙ read_frame_lem f rest;
}

decode-encode_example :
    (decode plain_format (9 ∷ 0 ∷ 0 ∷ 0 ∷ 0 ∷ []) ≡ ok hostile_frame)
    × ((b : ℕ) (rest : Bytes)
        → decode plain_format (9 ∷ 0 ∷ 0 ∷ 0 ∷ 0 ∷ b ∷ rest)
          ≡ err (trailing_bytes (length (b ∷ rest))))
unfolding encode
decode-encode_example =
    decode-encode plain_format plain_format_laws hostile_frame (9 ∷ 0 ∷ 0 ∷ 0 ∷ 0 ∷ []) refl
