-- ===== src/Client/Legible.antt =====
-- crates/oxutrm-client/src/popup.rs: making a remote's text safe to show.
pub mod Safe
use oxutrm.Base.{
  ℕ, ◌+◌, ◌-◌, ◌/◌, ◌%◌, Bool, true, false, ◌&&◌, not, List, [], ◌∷◌, ◌++◌, leb, ltb, ◌==◌, length,
  take, if◌then◌else◌,
}
use oxutrm.Proto.Text.{Text}
use oxutrm.Proto.Ids.{is_whitespace}

abbrev pub reason_shown : ℕ
reason_shown = 120

-- `{:02X}`, of a number below 256.
abbrev pub upper_digit : ℕ → ℕ
upper_digit n = if ltb n 10 then b'0' + n else b'A' + (n - 10)

unfoldable pub legible_char : ℕ → Text
legible_char c =
    if ltb c 0x20
    then b'^' ∷ (c + b'@') ∷ []
    else if c == 0x7f
    then b'^' ∷ b'?' ∷ []
    else if leb 0x80 c && leb c 0x9f
    then b'<' ∷ upper_digit (c / 16) ∷ upper_digit (c % 16) ∷ b'>' ∷ []
    else c ∷ []

unfoldable pub legible : Text → Text
unfolding legible_char
legible [] = []
legible (c ∷ line) = legible_char c ++ legible line

-- `str::lines`: a line ends at `\n`, or at `\r\n`.
unfoldable pub without_return : Text → Text
without_return [] = []
without_return (c ∷ []) = if c == 0x0d then [] else c ∷ []
without_return (c ∷ d ∷ line) = c ∷ without_return (d ∷ line)

unfoldable pub lines_after : Text → Text → List Text
unfolding without_return
lines_after [] [] = []
lines_after (c ∷ line) [] = (c ∷ line) ∷ []
lines_after line (c ∷ text) =
    if c == 0x0a
    then without_return line ∷ lines_after [] text
    else lines_after (line ++ c ∷ []) text

unfoldable pub lines : Text → List Text
unfolding lines_after
lines text = lines_after [] text

-- `str::trim`.
unfoldable pub trim_start : Text → Text
unfolding is_whitespace
trim_start [] = []
trim_start (c ∷ text) = if is_whitespace c then trim_start text else c ∷ text

unfoldable pub trim_end : Text → Text
unfolding is_whitespace
trim_end [] = []
trim_end (c ∷ text) = keep_end c (trim_end text)
  where
    keep_end : ℕ → Text → Text
    keep_end c [] = if is_whitespace c then [] else c ∷ []
    keep_end c (d ∷ rest) = c ∷ d ∷ rest

abbrev pub trim : Text → Text
trim text = trim_end (trim_start text)

abbrev pub first_line : List Text → Text
first_line [] = []
first_line (line ∷ rest) = line

-- A text of at most so many characters, or its beginning and three dots.
unfoldable pub cut_at : ℕ → Text → Text
cut_at cap text = if leb (length text) cap then text else take cap text ++ b'.' ∷ b'.' ∷ b'.' ∷ []

unfoldable pub summarised : Text → Text
unfolding legible lines trim_start trim_end cut_at
summarised reason = cut_at reason_shown (legible (trim (first_line (lines reason))))
