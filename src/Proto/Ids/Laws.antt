-- ===== src/Proto/Ids/Laws.antt =====
-- Ids and names are told apart, and an id survives being written and read.
use oxutrm.Base.{
  ℕ, ◌+◌, ◌*◌, ◌/◌, ◌%◌, ◌≤◌, ◌<◌, ◌≡◌, refl, sym, ap, subst, ◌∙◌, true, false, [], ◌∷◌, All,
  length, ok, arith, Bool-cases, inl, inr, some, ◌==◌, ltb,
}
use oxutrm.Proto.Text.{Text, byte_len, len_utf8}
use oxutrm.Proto.Ids.{
  SessionId, hex, display, is_prefix, starts_with, digit, from_pair, parse_bytes, from_str,
  is_id_digit, all_of, parse, max_name,
}

abbrev pub IsByte : ℕ → Type 0
IsByte b = b < 256

hex-id_digit : (n : ℕ) → n < 16 → is_id_digit (hex n) ≡ true
hex-id_digit n h = ground arith

hex-ascii : (n : ℕ) → n < 16 → len_utf8 (hex n) ≡ 1
hex-ascii n h = ground arith

hex-plus : (n : ℕ) → n < 16 → (hex n == 0x2b) ≡ false
hex-plus n h = ground arith

digit-hex : (n : ℕ) → n < 16 → digit (hex n) ≡ some n
unfolding digit
digit-hex n h = elim (Bool-cases (ltb n 10)) [ inl e ↦ ground arith | inr e ↦ ground arith ]

is_prefix_refl : (t : Text) → is_prefix t t ≡ true
unfolding is_prefix
is_prefix_refl [] = refl
is_prefix_refl (c ∷ t) = ground (arith, is_prefix_refl t)

-- What an id's text begins with is digits.
prefix_digits :
    (id : SessionId) (t : Text)
    → All IsByte id
    → is_prefix t (display id) ≡ true
    → all_of is_id_digit t ≡ true
unfolding display is_prefix
prefix_digits id [] h e = refl
prefix_digits [] (c ∷ t) h e = cc
prefix_digits (b ∷ id) (c ∷ []) h e =
    let is : c ≡ hex (b / 16) = ground arith in
    let first = hex-id_digit (b / 16) (omega (arith, h.0)) in rw is (rw first refl)
prefix_digits (b ∷ id) (c ∷ d ∷ t) h e =
    let (p, q, r) : (c ≡ hex (b / 16)) × (d ≡ hex (b % 16)) × (is_prefix t (display id) ≡ true) =
      ground arith in
    let first = hex-id_digit (b / 16) (omega (arith, h.0)) in
    let second = hex-id_digit (b % 16) (omega arith) in
    rw (p, q) (rw (first, second) (prefix_digits id t h.1 r))

-- For an id that is made of bytes: where `parse` accepts a text, the name is the text itself, has 1 to
-- 24 characters, and the id does not start with it.
pub parse-starts_with :
    (id : SessionId) (t name : Text)
    → All IsByte id
    → parse t ≡ ok name
    → (name ≡ t) × (1 ≤ length name) × (length name ≤ max_name) × (starts_with id name ≡ false)
unfolding parse starts_with
parse-starts_with id t name h e =
    let (same, some_left, few, other) : (name ≡ t)
        × (1 ≤ length t)
        × (length t ≤ max_name)
        × (all_of is_id_digit t ≡ false) =
      (ground arith, ground arith, ground arith, ground arith) in
    (
      same,
      subst (λ s. 1 ≤ length s) (sym same) some_left,
      subst (λ s. length s ≤ max_name) (sym same) few,
      subst (λ s. is_prefix s (display id) ≡ false) (sym same)
          (elim (Bool-cases (is_prefix t (display id))) [
            | inl hit ↦ let clash = sym (prefix_digits id t h hit) ∙ other in absurd (cc)
            | inr miss ↦ miss
          ]),
    )

from_pair-hex : (b : ℕ) → b < 256 → from_pair (hex (b / 16)) (hex (b % 16)) ≡ ok b
unfolding from_pair
from_pair-hex b h =
    let low = digit-hex (b % 16) (omega arith) in
    let high = digit-hex (b / 16) (omega arith) in
    let plus = hex-plus (b / 16) (omega arith) in
    let whole : b / 16 * 16 + b % 16 ≡ b = omega arith in
    rw (low, plus, high, from_pair) (ap (λ (n : ℕ). ok n) whole)

parse_bytes-display :
    (id : SessionId) → All IsByte id → parse_bytes (length id) (display id) ≡ ok id
unfolding parse_bytes display
parse_bytes-display [] h = refl
parse_bytes-display (b ∷ id) h =
    let high = hex-ascii (b / 16) (omega (arith, h.0)) in
    let low = hex-ascii (b % 16) (omega arith) in
    rw (high, low) (rw (from_pair-hex b h.0) (rw (parse_bytes-display id h.1) refl))

byte_len-display : (id : SessionId) → All IsByte id → byte_len (display id) ≡ 2 * length id
unfolding display
byte_len-display [] h = refl
byte_len-display (b ∷ id) h = omega (
  arith,
  hex-ascii (b / 16) (omega (arith, h.0)),
  hex-ascii (b % 16) (omega arith),
  byte_len-display id h.1,
)

-- For an id of sixteen bytes: its text is 32 bytes of lowercase digits, and is read back as the id.
pub from_str-display :
    (id : SessionId)
    → length id ≡ 16
    → All IsByte id
    → (from_str (display id) ≡ ok id)
      × (byte_len (display id) ≡ 32)
      × (all_of is_id_digit (display id) ≡ true)
unfolding from_str
from_str-display id size h =
    let wide : byte_len (display id) ≡ 32 = omega (arith, byte_len-display id h) in
    (
      rw wide (subst (λ n. parse_bytes n (display id) ≡ ok id) size (parse_bytes-display id h)),
      wide,
      prefix_digits id (display id) h (is_prefix_refl (display id)),
    )
