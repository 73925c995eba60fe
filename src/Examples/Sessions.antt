-- ===== src/Examples/Sessions.antt =====
-- A session's id, and a name beside it.
use oxutrm.Base.{◌≤◌, ◌≡◌, refl, true, false, [], ◌++◌, ◌∷◌, ok, replicate, arith, All}
use oxutrm.Proto.Text.{Text, byte_len}
use oxutrm.Proto.Ids.{
  SessionId, display, starts_with, from_str, is_id_digit, all_of, parse, is_control, is_whitespace,
  has_outer_space, from_pair, digit, max_name,
}
use oxutrm.Proto.Ids.Laws.{IsByte, parse-starts_with, from_str-display}

abbrev cafe_id : SessionId
cafe_id = replicate 8 0xca ++ replicate 8 0xfe

abbrev cafe_name : Text
cafe_name = 0x43 ∷ 0x41 ∷ 0x46 ∷ 0x45 ∷ []

cafe_bytes : All IsByte cafe_id
cafe_bytes = ground arith

parse-starts_with_example :
    (cafe_name ≡ cafe_name) × (1 ≤ 4) × (4 ≤ max_name) × (starts_with cafe_id cafe_name ≡ false)
unfolding parse is_control is_whitespace has_outer_space
parse-starts_with_example = parse-starts_with cafe_id cafe_name cafe_name cafe_bytes refl

from_str-display_example :
    (from_str (display cafe_id) ≡ ok cafe_id)
    × (byte_len (display cafe_id) ≡ 32)
    × (all_of is_id_digit (display cafe_id) ≡ true)
from_str-display_example = from_str-display cafe_id refl cafe_bytes

-- A plus sign stands for the first digit of a pair.
plus_is_read : from_pair 0x2b 0x61 ≡ ok 10
unfolding from_pair digit
plus_is_read = refl
