-- ===== src/Proto/Ids.antt =====
-- crates/oxutrm-proto/src/ids.rs and name.rs: what `--attach` takes, an id or a name.
pub mod Laws
use oxutrm.Base.{
  ℕ, zero, suc, ◌+◌, ◌-◌, ◌*◌, ◌/◌, ◌%◌, Bool, true, false, not, ◌&&◌, ◌||◌, ◌==◌, List, [], ◌∷◌,
  ◌++◌, Option, none, some, ltb, leb, length, if◌then◌else◌, Result, ok, err, ◌>>=◌,
}
use oxutrm.Proto.Text.{Text, byte_len, len_utf8}

-- The sixteen bytes of `SessionId`.
abbrev pub SessionId : Type 0
SessionId = List ℕ

-- A digit as `{:x}` writes it.
abbrev pub hex : ℕ → ℕ
hex n = if ltb n 10 then n + 0x30 else n + 0x57

-- `Display`: two digits for each byte.
unfoldable pub display : SessionId → Text
display [] = []
display (b ∷ id) = hex (b / 16) ∷ hex (b % 16) ∷ display id

-- `str::starts_with`.
unfoldable pub is_prefix : Text → Text → Bool
is_prefix [] text = true
is_prefix (c ∷ prefix) [] = false
is_prefix (c ∷ prefix) (d ∷ text) = c == d && is_prefix prefix text

unfoldable pub starts_with : SessionId → Text → Bool
starts_with id prefix = is_prefix prefix (display id)

-- `ProtoError::Malformed`, by which of the three texts of `from_str` it is.
pub data IdError : Type 0 where
  wrong_length : ℕ → IdError
  off_boundary not_hex : IdError

-- `char::to_digit(16)`.
unfoldable pub digit : ℕ → Option ℕ
digit c =
    if leb 0x30 c && leb c 0x39
    then some (c - 0x30)
    else if leb 0x61 c && leb c 0x66
    then some (c - 0x57)
    else if leb 0x41 c && leb c 0x46
    then some (c - 0x37)
    else none

-- `u8::from_str_radix(pair, 16)` on two ASCII characters: the first may be a plus sign.
unfoldable pub from_pair : ℕ → ℕ → Result IdError ℕ
from_pair c d = elim (digit d) [
  | none ↦ err not_hex
  | some low ↦
      if c == 0x2b
      then ok low
      else elim (digit c) [ none ↦ err not_hex | some high ↦ ok (high * 16 + low) ]
]

-- The loop, for the n bytes that are left: two bytes of the text at a time. A slice that does not
-- end between two characters is none, and one character of two bytes is no pair of digits.
unfoldable pub parse_bytes : ℕ → Text → Result IdError (List ℕ)
parse_bytes zero text = ok []
parse_bytes (suc n) [] = err off_boundary
parse_bytes (suc n) (c ∷ []) = err (if len_utf8 c == 2 then not_hex else off_boundary)
parse_bytes (suc n) (c ∷ d ∷ text) =
    let rest = parse_bytes n text in
    if len_utf8 c == 2
    then err not_hex
    else if ltb 1 (len_utf8 c) || ltb 1 (len_utf8 d)
    then err off_boundary
    else do b ← from_pair c d; bs ← rest; ok (b ∷ bs)

unfoldable pub from_str : Text → Result IdError SessionId
from_str text =
    if not (byte_len text == 32) then err (wrong_length (byte_len text)) else parse_bytes 16 text

abbrev pub max_name : ℕ
max_name = 24

pub data NameError : Type 0 where
  empty too_long control_character outer_space reads_as_id : NameError

-- `char::is_control`: the category Cc.
unfoldable pub is_control : ℕ → Bool
is_control c = leb c 0x1f || (leb 0x7f c && leb c 0x9f)

-- `char::is_whitespace`, on which `trim` stands: the property White_Space.
unfoldable pub is_whitespace : ℕ → Bool
is_whitespace c =
    (leb 0x09 c && leb c 0x0d)
    || c == 0x20
    || c == 0x85
    || c == 0xa0
    || c == 0x1680
    || (leb 0x2000 c && leb c 0x200a)
    || c == 0x2028
    || c == 0x2029
    || c == 0x202f
    || c == 0x205f
    || c == 0x3000

-- Whether `text.trim() != text`: a character at either end is white space.
unfoldable pub has_outer_space : Text → Bool
has_outer_space [] = false
has_outer_space (c ∷ []) = is_whitespace c
has_outer_space (c ∷ d ∷ text) = is_whitespace c || ends_in_space d text
  where
    ends_in_space : ℕ → Text → Bool
    ends_in_space e [] = is_whitespace e
    ends_in_space e (f ∷ rest) = ends_in_space f rest

-- `'0'..='9' | 'a'..='f'`.
abbrev pub is_id_digit : ℕ → Bool
is_id_digit c = (leb 0x30 c && leb c 0x39) || (leb 0x61 c && leb c 0x66)

abbrev pub any_of : (ℕ → Bool) → Text → Bool
any_of p [] = false
any_of p (c ∷ text) = p c || any_of p text

abbrev pub all_of : (ℕ → Bool) → Text → Bool
all_of p [] = true
all_of p (c ∷ text) = p c && all_of p text

-- `Name::parse`.
unfoldable pub parse : Text → Result NameError Text
parse text =
    if length text == 0
    then err empty
    else if ltb max_name (length text)
    then err too_long
    else if any_of is_control text
    then err control_character
    else if has_outer_space text
    then err outer_space
    else if all_of is_id_digit text
    then err reads_as_id
    else ok text
