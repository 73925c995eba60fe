-- ===== src/Term/OscGuard/Reading.antt =====
-- The states of vte that osc_guard.rs documents: where an OSC starts and ends, and what of it is
-- stored. The guard and the parser must agree on exactly that.
use oxutrm.Base.{
  ℕ, ◌≤◌, ◌≡◌, refl, sym, ap, ◌∙◌, Bool, true, false, inl, inr, ◌&&◌, not, [], ◌∷◌, ◌++◌, ◌==◌, leb,
  ltb, length, if◌then◌else◌, All, Bool-cases, append_assoc, append-nil, arith,
}
use oxutrm.Proto.Frame.{Bytes}
use oxutrm.Term.OscGuard.{before, onward, ends_osc, stays_escaped, limit, bel, can, sub, esc}

pub data Reading : Type 0 where
  outside escaped : Reading
  string : Bytes → Reading

-- A C0 control other than CAN and SUB, DEL, or a byte from 0x80 up.
abbrev pub lingers : ℕ → Bool
lingers b = if ltb b 0x20 then not (b == can) && not (b == sub) else leb 0x7f b

module _ (keeps : ℕ → Bool) where
  -- How a byte moves the parser, which stores the bytes of an OSC that it keeps.
  unfoldable pub advance : Reading → ℕ → Reading
  advance outside b = if b == esc then escaped else outside
  advance escaped b = if b == b']' then string [] else if lingers b then escaped else outside
  advance (string body) b =
      if b == esc
      then escaped
      else if b == bel
      then outside
      else if b == can
      then outside
      else if b == sub
      then outside
      else if keeps b
      then string (body ++ b ∷ [])
      else string body

  unfoldable pub read_all : Reading → Bytes → Reading
  read_all v [] = v
  read_all v (b ∷ bytes) = read_all (advance v b) bytes

-- What is stored of an OSC is within the cap for its number.
abbrev pub Within : Reading → Type 0
Within outside = Unit
Within escaped = Unit
Within (string body) = length body ≤ limit body

module _ (keeps : ℕ → Bool) where
  -- So it is at all times, from a state on and over some bytes.
  unfoldable pub Throughout : Reading → Bytes → Type 0
  Throughout v [] = Within v
  Throughout v (b ∷ bytes) = Within v × Throughout (advance keeps v b) bytes

  unfoldable pub kept : Bytes → Bytes
  kept [] = []
  kept (b ∷ bytes) = if keeps b then b ∷ kept bytes else kept bytes

  pub read_all-append :
      (v : Reading) (xs ys : Bytes)
      → read_all keeps v (xs ++ ys) ≡ read_all keeps (read_all keeps v xs) ys
  unfolding read_all
  read_all-append v [] ys = refl
  read_all-append v (x ∷ xs) ys = read_all-append (advance keeps v x) xs ys

  pub Throughout-append :
      (v : Reading) (xs ys : Bytes)
      → Throughout v xs
      → Throughout (read_all keeps v xs) ys
      → Throughout v (xs ++ ys)
  unfolding Throughout read_all
  Throughout-append v [] ys h k = k
  Throughout-append v (x ∷ xs) ys h k = (h.0, Throughout-append (advance keeps v x) xs ys h.1 k)

  pub Throughout-rest :
      (v : Reading) (xs ys : Bytes) → Throughout v (xs ++ ys) → Throughout (read_all keeps v xs) ys
  unfolding Throughout read_all
  Throughout-rest v [] ys h = h
  Throughout-rest v (x ∷ xs) ys h = Throughout-rest (advance keeps v x) xs ys h.1

  pub Throughout-here : (v : Reading) (xs : Bytes) → Throughout v xs → Within v
  unfolding Throughout
  Throughout-here v [] h = h
  Throughout-here v (x ∷ xs) h = h.0

  pub Throughout-Within :
      (v : Reading) (xs : Bytes) → Throughout v xs → Within (read_all keeps v xs)
  unfolding Throughout read_all
  Throughout-Within v [] h = h
  Throughout-Within v (x ∷ xs) h = Throughout-Within (advance keeps v x) xs h.1

  -- Nothing opens without an ESC.
  pub outside_stays :
      (bytes : Bytes)
      → All (λ b. (b == esc) ≡ false) bytes
      → (read_all keeps outside bytes ≡ outside) × Throughout outside bytes
  unfolding Throughout read_all advance
  outside_stays [] h = (refl, tt)
  outside_stays (b ∷ bytes) h =
      let (same, calm) = outside_stays bytes h.1 in rw h.0 (same, (tt, calm))

  pub advance_plain :
      (body : Bytes) (b : ℕ)
      → ends_osc b ≡ false
      → advance keeps (string body) b ≡ (if keeps b then string (body ++ b ∷ []) else string body)
  unfolding advance ends_osc
  advance_plain body b h = ground arith

  -- An OSC grows by the bytes that are kept, until a byte ends it.
  pub string_grows :
      (body bytes : Bytes)
      → All (λ b. ends_osc b ≡ false) bytes
      → read_all keeps (string body) bytes ≡ string (body ++ kept bytes)
  unfolding read_all kept
  string_grows body [] h = ap string (sym (append-nil body))
  string_grows body (b ∷ bytes) h = elim (Bool-cases (keeps b)) [
    | inl e ↦ rw (advance_plain body b h.0) (
        rw e (
          string_grows (body ++ b ∷ []) bytes h.1
          ∙ ap string (append_assoc body (b ∷ []) (kept bytes))))
    | inr e ↦ rw (advance_plain body b h.0) (rw e (string_grows body bytes h.1))
  ]

  -- The terminators.
  pub advance-ends :
      (body : Bytes) (b : ℕ)
      → ends_osc b ≡ true
      → advance keeps (string body) b ≡ (if b == esc then escaped else outside)
  unfolding advance ends_osc
  advance-ends body b h = ground arith

-- The code's ranges of bytes are those that the parser documents.
pub stays_escaped-lingers : (b : ℕ) → stays_escaped b ≡ lingers b
unfolding stays_escaped
stays_escaped-lingers b = ground arith

-- Where the source's search for a byte stops.
module _ (stop : ℕ → Bool) where
  pub before-All : (bytes : Bytes) → All (λ b. stop b ≡ false) (before stop bytes)
  unfolding before
  before-All [] = tt
  before-All (b ∷ bytes) = elim (Bool-cases (stop b)) [
    | inl e ↦ rw e tt
    | inr e ↦ rw e (e, before-All bytes)
  ]

  pub before-append-onward : (bytes : Bytes) → before stop bytes ++ onward stop bytes ≡ bytes
  unfolding before onward
  before-append-onward [] = refl
  before-append-onward (b ∷ bytes) = elim (Bool-cases (stop b)) [
    | inl e ↦ rw e refl
    | inr e ↦ rw e (ap (λ (r : Bytes). b ∷ r) (before-append-onward bytes))
  ]

  pub onward_head :
      (bytes : Bytes) (b : ℕ) (rest : Bytes) → onward stop bytes ≡ b ∷ rest → stop b ≡ true
  unfolding onward
  onward_head [] b rest h = cc
  onward_head (c ∷ bytes) b rest h = elim (Bool-cases (stop c)) [
    | inl e ↦ let same : c ∷ bytes ≡ b ∷ rest = (rw e at h) in ground (arith, same, e)
    | inr e ↦ onward_head bytes b rest (rw e at h)
  ]
