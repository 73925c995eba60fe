-- ===== src/Term/OscGuard/Rounds.antt =====
-- The loop of `feed` comes to its end.
use oxutrm.Base.{
  ℕ, zero, suc, ◌≤◌, ◌<◌, ◌≡◌, refl, sym, ap, ◌∙◌, Bool, inl, inr, [], ◌∷◌, ◌==◌, length,
  Bool-cases, arith,
}
use oxutrm.Proto.Frame.{Bytes}
use oxutrm.Term.OscGuard.{
  State, ground, escape, osc, discard, OscGuard, Pass, before, onward, ends_osc, is_left, in_ground,
  in_escape, take_body, skip_body, terminate, round_in, round, rounds, begin, esc,
}

onward-le : (stop : ℕ → Bool) (bytes : Bytes) → length (onward stop bytes) ≤ length bytes
unfolding onward
onward-le stop [] = omega arith
onward-le stop (b ∷ bytes) = elim (Bool-cases (stop b)) [
  | inl e ↦ rw e (omega arith)
  | inr e ↦ rw e (omega (arith, onward-le stop bytes))
]

module _ (n : ℕ) (some_left : 0 < n) where
  in_ground-lt :
      (skipped bytes : Bytes) (p : Pass)
      → length bytes ≤ n
      → length (in_ground skipped bytes p).rest < n
  unfolding in_ground
  in_ground-lt skipped [] p h = omega arith
  in_ground-lt skipped (b ∷ bytes) p h = omega arith

  terminate-lt :
      (s : State) (bytes : Bytes) (p : Pass)
      → length bytes ≤ n
      → length (terminate s bytes p).rest < n
  unfolding terminate
  terminate-lt ground [] p h = omega arith
  terminate-lt ground (b ∷ bytes) p h = omega arith
  terminate-lt escape [] p h = omega arith
  terminate-lt escape (b ∷ bytes) p h = omega arith
  terminate-lt osc [] p h = omega arith
  terminate-lt osc (b ∷ bytes) p h = omega arith
  terminate-lt discard [] p h = omega arith
  terminate-lt discard (b ∷ bytes) p h = omega arith

in_escape-lt :
    (bytes : Bytes) (p : Pass) → 0 < length bytes → length (in_escape bytes p).rest < length bytes
unfolding in_escape
in_escape-lt [] p h = absurd (omega arith)
in_escape-lt (b ∷ bytes) p h = elim (Bool-cases (b == b']')) [
  | inl e ↦ rw e (omega arith)
  | inr e ↦ rw e (omega arith)
]

round_in-lt :
    (s : State) (p : Pass) → 0 < length p.rest → length (round_in s p).rest < length p.rest
unfolding round_in
round_in-lt ground p h =
    in_ground-lt (length p.rest) h (before (λ b. b == esc) p.rest) (onward (λ b. b == esc) p.rest) p
      (onward-le (λ b. b == esc) p.rest)
round_in-lt escape p h = in_escape-lt p.rest p h
round_in-lt osc p h =
    let p' = take_body (before ends_osc p.rest) p in
    terminate-lt (length p.rest) h p'.guard.state (onward ends_osc p.rest) p'
      (onward-le ends_osc p.rest)
round_in-lt discard p h =
    let p' = skip_body p in
    terminate-lt (length p.rest) h p'.guard.state (onward ends_osc p.rest) p'
      (onward-le ends_osc p.rest)

round-lt : (p : Pass) → 0 < length p.rest → length (round p).rest < length p.rest
unfolding round
round-lt p h = round_in-lt p.guard.state p h

-- A round on an input with a byte left, and the end of one with none.
rounds-suc :
    (fuel : ℕ) (p : Pass) (b : ℕ) (rest : Bytes)
    → p.rest ≡ b ∷ rest
    → rounds (suc fuel) p ≡ rounds fuel (round p)
unfolding rounds
rounds-suc fuel p b rest e = rw (ap is_left e) refl

rounds_done : (fuel : ℕ) (p : Pass) → p.rest ≡ [] → rounds fuel p ≡ p
unfolding rounds
rounds_done zero p e = refl
rounds_done (suc fuel) p e = rw (ap is_left e) refl

rounds-rest :
    (fuel : ℕ) (p : Pass) (rest : Bytes)
    → p.rest ≡ rest
    → length rest ≤ fuel
    → (rounds fuel p).rest ≡ []
rounds-rest fuel p [] e h = ap (λ (q : Pass). q.rest) (rounds_done fuel p e) ∙ e
rounds-rest zero p (b ∷ rest) e h = absurd (omega arith)
rounds-rest (suc fuel) p (b ∷ rest) e h =
    let shrunk : length (round p).rest < suc (length rest) =
      omega (arith, round-lt p, ap length e) in
    ap (λ (q : Pass). q.rest) (rounds-suc fuel p b rest e)
    ∙ rounds-rest fuel (round p) (round p).rest refl (omega arith)

rounds_same :
    (fuel more : ℕ) (p : Pass) (rest : Bytes)
    → p.rest ≡ rest
    → length rest ≤ fuel
    → length rest ≤ more
    → rounds fuel p ≡ rounds more p
rounds_same fuel more p [] e h k = rounds_done fuel p e ∙ sym (rounds_done more p e)
rounds_same zero more p (b ∷ rest) e h k = absurd (omega arith)
rounds_same (suc fuel) zero p (b ∷ rest) e h k = absurd (omega arith)
rounds_same (suc fuel) (suc more) p (b ∷ rest) e h k =
    let shrunk : length (round p).rest < suc (length rest) =
      omega (arith, round-lt p, ap length e) in
    rounds-suc fuel p b rest e
    ∙ rounds_same fuel more (round p) (round p).rest refl (omega arith) (omega arith)
    ∙ sym (rounds-suc more p b rest e)

-- What a round keeps, the loop keeps.
pub rounds-keep :
    (P : Pass → Type 0)
    → ((p : Pass) → P p → P (round p))
    → (fuel : ℕ) (p : Pass) → P p
    → P (rounds fuel p)
unfolding rounds
rounds-keep P keep zero p h = h
rounds-keep P keep (suc fuel) p h = elim (Bool-cases (is_left p.rest)) [
  | inl e ↦ rw e (rounds-keep P keep fuel (round p) (keep p h))
  | inr e ↦ rw e h
]

-- From every state of the guard, `feed`'s loop reads its whole input in at most as many rounds as the
-- input has bytes: with that fuel or more, nothing is left to read, and more fuel changes nothing.
pub feed_ends :
    (g : OscGuard) (input : Bytes) (fuel : ℕ)
    → length input ≤ fuel
    → ((rounds fuel (begin g input)).rest ≡ [])
      × (rounds fuel (begin g input) ≡ rounds (length input) (begin g input))
unfolding begin
feed_ends g input fuel h = (
  rounds-rest fuel (begin g input) input refl h,
  rounds_same fuel (length input) (begin g input) input refl h (omega arith),
)
