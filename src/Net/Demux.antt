-- ===== src/Net/Demux.antt =====
-- crates/oxutrm-net/src/demux.rs: telling STUN from QUIC on one socket.
use mathlib.Core.Logic.{◌↔◌}
use oxutrm.Base.{
  ℕ, zero, suc, ◌+◌, ◌*◌, ◌%◌, ◌≤◌, ◌<◌, ◌≡◌, refl, Bool, true, false, ◌&&◌, not, [], ◌∷◌, ◌++◌, ap,
  ◌/◌, sym, subst, ◌∙◌, All, length-take, length-drop, length-append, ◌==◌, leb, ltb, length, take,
  drop, if◌then◌else◌, bit_and, arith,
}
use oxutrm.Proto.Addr.{agrees}
use oxutrm.Proto.Frame.{Bytes}

abbrev pub stun_magic_cookie : Bytes
stun_magic_cookie = 0x21 ∷ 0x12 ∷ 0xa4 ∷ 0x42 ∷ []

abbrev pub stun_header_len : ℕ
stun_header_len = 20

-- `datagram[i]`, which the code reads only where there is such a byte.
unfoldable pub byte : Bytes → ℕ → ℕ
byte [] i = 0
byte (b ∷ bytes) zero = b
byte (b ∷ bytes) (suc i) = byte bytes i

-- `u16::from_be_bytes`.
abbrev pub body_len : Bytes → ℕ
body_len datagram = byte datagram 2 * 256 + byte datagram 3

unfoldable pub is_stun : Bytes → Bool
is_stun datagram =
    if ltb (length datagram) stun_header_len
    then false
    else if not (bit_and (byte datagram 0) 0xc0 == 0)
    then false
    else if not (agrees (take 4 (drop 4 datagram)) stun_magic_cookie)
    then false
    else if not (body_len datagram % 4 == 0)
    then false
    else leb (stun_header_len + body_len datagram) (length datagram)

all_below : ℕ → (ℕ → Bool) → Bool
all_below zero test = true
all_below (suc n) test = test n && all_below n test

all_below_sound :
    (n : ℕ) (test : ℕ → Bool) (b : ℕ) → all_below n test ≡ true → b < n → test b ≡ true
unfolding all_below
all_below_sound zero test b h lt = absurd (omega arith)
all_below_sound (suc n) test b h lt = ground (arith, all_below_sound n test b)

same_test : Bool → Bool → Bool
same_test true b = b
same_test false b = not b

same_test_eq : (a b : Bool) → same_test a b ≡ true → a ≡ b
unfolding same_test
same_test_eq true b h = ground arith
same_test_eq false b h = ground arith

top_bits : all_below 256 (λ b. same_test (bit_and b 0xc0 == 0) (ltb b 64)) ≡ true
unfolding all_below same_test
top_bits = refl

-- The two top bits of a byte are clear exactly below 64.
pub top_bits_clear : (b : ℕ) → b < 256 → (bit_and b 0xc0 == 0) ≡ ltb b 64
top_bits_clear b h =
    same_test_eq _ _
      (all_below_sound 256 (λ b. same_test (bit_and b 0xc0 == 0) (ltb b 64)) b top_bits h)

-- A STUN message, followed by anything: a type whose two top bits are clear, the length of the body in
-- two bytes, the high one first, the cookie, a transaction id of 12 bytes, and a body of whole words.
pub record IsStun (datagram : Bytes) : Type 0 where
  pub first : ℕ
  pub second : ℕ
  pub words : ℕ
  pub transaction : Bytes
  pub body : Bytes
  pub rest : Bytes
  pub written :
      datagram
      ≡ first
        ∷ second
        ∷ 4 * words / 256
        ∷ 4 * words % 256
        ∷ 0x21
        ∷ 0x12
        ∷ 0xa4
        ∷ 0x42
        ∷ (transaction ++ (body ++ rest))
  pub top_clear : first < 64
  pub transaction_len : length transaction ≡ 12
  pub body_filled : length body ≡ 4 * words

take-drop : (n : ℕ) (xs : Bytes) → take n xs ++ drop n xs ≡ xs
take-drop zero xs = refl
take-drop (suc n) [] = refl
take-drop (suc n) (x ∷ xs) = ap (◌∷◌ x) (take-drop n xs)

-- What the header's tests find in a datagram with eight bytes.
laid_out :
    (b0 b1 hi lo c0 c1 c2 c3 : ℕ) (after : Bytes)
    → b0 < 256
    → hi < 256
    → lo < 256
    → is_stun (b0 ∷ b1 ∷ hi ∷ lo ∷ c0 ∷ c1 ∷ c2 ∷ c3 ∷ after) ≡ true
    → (b0 < 64)
      × ((c0 ≡ 0x21) × (c1 ≡ 0x12) × (c2 ≡ 0xa4) × (c3 ≡ 0x42))
      × ((hi * 256 + lo) % 4 ≡ 0)
      × (12 + (hi * 256 + lo) ≤ length after)
unfolding is_stun agrees byte
laid_out b0 b1 hi lo c0 c1 c2 c3 after f g k h = let e = top_bits_clear b0 f in ground (arith, e, h)

long_enough : (datagram : Bytes) → is_stun datagram ≡ true → 20 ≤ length datagram
unfolding is_stun
long_enough datagram h = ground (arith, h)

read_off :
    (datagram : Bytes) → All (λ b. b < 256) datagram → is_stun datagram ≡ true → IsStun datagram
read_off [] all h = absurd (omega (arith, long_enough [] h))
read_off (a0 ∷ []) all h = absurd (omega (arith, long_enough (a0 ∷ []) h))
read_off (a0 ∷ a1 ∷ []) all h = absurd (omega (arith, long_enough (a0 ∷ a1 ∷ []) h))
read_off (a0 ∷ a1 ∷ a2 ∷ []) all h = absurd (omega (arith, long_enough (a0 ∷ a1 ∷ a2 ∷ []) h))
read_off (a0 ∷ a1 ∷ a2 ∷ a3 ∷ []) all h =
    absurd (omega (arith, long_enough (a0 ∷ a1 ∷ a2 ∷ a3 ∷ []) h))
read_off (a0 ∷ a1 ∷ a2 ∷ a3 ∷ a4 ∷ []) all h =
    absurd (omega (arith, long_enough (a0 ∷ a1 ∷ a2 ∷ a3 ∷ a4 ∷ []) h))
read_off (a0 ∷ a1 ∷ a2 ∷ a3 ∷ a4 ∷ a5 ∷ []) all h =
    absurd (omega (arith, long_enough (a0 ∷ a1 ∷ a2 ∷ a3 ∷ a4 ∷ a5 ∷ []) h))
read_off (a0 ∷ a1 ∷ a2 ∷ a3 ∷ a4 ∷ a5 ∷ a6 ∷ []) all h =
    absurd (omega (arith, long_enough (a0 ∷ a1 ∷ a2 ∷ a3 ∷ a4 ∷ a5 ∷ a6 ∷ []) h))
read_off (a0 ∷ a1 ∷ a2 ∷ a3 ∷ a4 ∷ a5 ∷ a6 ∷ a7 ∷ after) (l0, (l1, (l2, (l3, all)))) h =
    let (top, (c0, c1, c2, c3), whole, fits) = laid_out a0 a1 a2 a3 a4 a5 a6 a7 after l0 l2 l3 h in
    let n = a2 * 256 + a3 in
    let high : a2 ≡ 4 * (n / 4) / 256 = omega arith in
    let low : a3 ≡ 4 * (n / 4) % 256 = omega arith in
    let parted : after ≡ take 12 after ++ (take n (drop 12 after) ++ drop n (drop 12 after)) =
      sym (
        ap (λ (r : Bytes). take 12 after ++ r) (take-drop n (drop 12 after))
        ∙ take-drop 12 after) in
    record {
      first = a0;
      second = a1;
      words = n / 4;
      transaction = take 12 after;
      body = take n (drop 12 after);
      rest = drop n (drop 12 after);
      written = cc;
      top_clear = top;
      transaction_len = length-take 12 after (omega arith);
      body_filled =
          length-take n (drop 12 after) (omega (arith, length-drop 12 after)) ∙ omega arith;
    }

announced :
    (first second words : ℕ) (transaction body rest : Bytes)
    → first < 64
    → length transaction ≡ 12
    → length body ≡ 4 * words
    → is_stun (
        first
        ∷ second
        ∷ 4 * words / 256
        ∷ 4 * words % 256
        ∷ 0x21
        ∷ 0x12
        ∷ 0xa4
        ∷ 0x42
        ∷ (transaction ++ (body ++ rest)))
      ≡ true
unfolding is_stun agrees byte
announced first second words transaction body rest h k l = ground (
  arith,
  top_bits_clear first (omega arith),
  length-append transaction (body ++ rest),
  length-append body rest,
)

-- For a datagram of bytes: it is taken for STUN exactly if a STUN message stands at its beginning, as far
-- as its header and its length tell. A QUIC packet, which sets 0x40, is none.
pub is_stun_iff :
    (datagram : Bytes) → All (λ b. b < 256) datagram → (is_stun datagram ≡ true) ↔ IsStun datagram
is_stun_iff datagram all = (
  read_off datagram all,
  (λ m.
      subst (λ d. is_stun d ≡ true) (sym m.written)
        (announced m.first m.second m.words m.transaction m.body m.rest m.top_clear
          m.transaction_len m.body_filled)),
)
