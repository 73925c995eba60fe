-- ===== src/Client/Legible/Safe.antt =====
-- What is shown or logged of a text holds nothing that a terminal acts on.
use oxutrm.Base.{
  ℕ, ◌+◌, ◌/◌, ◌%◌, ◌≤◌, ◌≡◌, refl, true, false, ◌&&◌, inl, inr, [], ◌∷◌, leb, ltb, ◌==◌, length,
  take, length-append, length-take, All, All-append, All-take, Bool-cases, leb→le, leb→gt, arith,
  ltb→lt,
}
use oxutrm.Proto.Text.{Text, is_control_scalar}
use oxutrm.Client.Legible.{legible_char, legible, cut_at, upper_digit}

abbrev pub Harmless : Text → Type 0
Harmless text = All (λ c. is_control_scalar c ≡ false) text

digit_range : (n : ℕ) → n ≤ 15 → (b'0' ≤ upper_digit n) × (upper_digit n ≤ b'F')
digit_range n h = ground arith

plain : (c : ℕ) → 0x20 ≤ c → c ≤ 0x7e → is_control_scalar c ≡ false
unfolding is_control_scalar
plain c h k = ground arith

dots : Harmless (b'.' ∷ b'.' ∷ b'.' ∷ [])
unfolding is_control_scalar
dots = (refl, (refl, (refl, tt)))

no_control :
    (c : ℕ)
    → ltb c 0x20 ≡ false
    → (c == 0x7f) ≡ false
    → leb 0x80 c && leb c 0x9f ≡ false
    → is_control_scalar c ≡ false
unfolding is_control_scalar
no_control c h k l = ground (arith, h, k, l)

between : (c : ℕ) → leb 0x80 c && leb c 0x9f ≡ true → c ≤ 0x9f
between c h = ground (arith, h)

-- An escape's four scalars.
escaped-Harmless :
    (c : ℕ) → c ≤ 0x9f → Harmless (b'<' ∷ upper_digit (c / 16) ∷ upper_digit (c % 16) ∷ b'>' ∷ [])
escaped-Harmless c h =
    let (lo, hi) = digit_range (c / 16) (omega arith) in
    let (lo', hi') = digit_range (c % 16) (omega arith) in
    (
      plain b'<' (omega arith) (omega arith),
      (
        plain (upper_digit (c / 16)) (omega arith) (omega arith),
        (
          plain (upper_digit (c % 16)) (omega arith) (omega arith),
          (plain b'>' (omega arith) (omega arith), tt),
        ),
      ),
    )

legible_char-Harmless : (c : ℕ) → Harmless (legible_char c)
unfolding legible_char
legible_char-Harmless c = elim (Bool-cases (ltb c 0x20)) [
  | inl e ↦
      let lt = ltb→lt c 0x20 e in
      rw e
        (plain b'^' (omega arith) (omega arith), (plain (c + b'@') (omega arith) (omega arith), tt))
  | inr e ↦ rw e (elim (Bool-cases (c == 0x7f)) [
    | inl k ↦
        rw k (plain b'^' (omega arith) (omega arith), (plain b'?' (omega arith) (omega arith), tt))
    | inr k ↦ rw k (elim (Bool-cases (leb 0x80 c && leb c 0x9f)) [
      | inl l ↦ rw l (escaped-Harmless c (between c l))
      | inr l ↦ rw l (no_control c e k l, tt)
    ])
  ])
]

pub legible-Harmless : (line : Text) → Harmless (legible line)
unfolding legible
legible-Harmless [] = tt
legible-Harmless (c ∷ line) =
    All-append (λ c. is_control_scalar c ≡ false) (legible_char c) (legible line)
      (legible_char-Harmless c) (legible-Harmless line)

pub cut_at-Harmless :
    (cap : ℕ) (text : Text)
    → Harmless text
    → Harmless (cut_at cap text) × (length (cut_at cap text) ≤ cap + 3)
unfolding cut_at
cut_at-Harmless cap text h = elim (Bool-cases (leb (length text) cap)) [
  | inl e ↦ let le = leb→le (length text) cap e in rw e (h, omega arith)
  | inr e ↦
      let gt = leb→gt (length text) cap e in
      rw e (
        All-append (λ c. is_control_scalar c ≡ false) (take cap text) (b'.' ∷ b'.' ∷ b'.' ∷ [])
            (All-take (λ c. is_control_scalar c ≡ false) cap text h) dots,
        omega (
          arith,
          length-append (take cap text) (b'.' ∷ b'.' ∷ b'.' ∷ []),
          length-take cap text (omega arith),
        ),
      )
]
