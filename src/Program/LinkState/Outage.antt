-- ===== src/Program/LinkState/Outage.antt =====
-- An outage: it is seen, it lasts until a frame arrives, and what is typed in it is kept.
use oxutrm.Base.{
  length-take-le, ℕ, zero, suc, ◌-◌, ◌≤◌, ◌≡◌, refl, sym, ap, subst, take_all, ◌∙◌, inl, inr, Bool,
  true, List, [], ◌∷◌, ◌++◌, arith, leb, length, take, min, append_assoc, append-nil, Bool-cases,
}
use oxutrm.Proto.Frame.{Bytes}
use oxutrm.Program.LinkState.{
  Phase, live, silent, recovering, confirming, is_outage, LinkState, retune, heard, sent, judge,
  evaluate, begin_attempt, rebuilt, attempt_failed, hold_keys, max_held, phase_with, evaluate_in,
  begun, restarted, postponed,
}
use oxutrm.Program.LinkState.Events.{
  Event, say, lap, begin, land, give_up, type_keys, tune, step, run, typed_by, all_typed,
}

module _ {A : Type 0} where
  take-min : (cap : ℕ) (ys : List A) → take (min (length ys) cap) ys ≡ take cap ys
  take-min zero ys = ap (λ n. take n ys) (let e : min (length ys) 0 ≡ 0 = omega arith in e)
  take-min (suc cap) [] =
      let nothing : List A = [] in
      ap (λ n. take n nothing) (let e : min 0 (suc cap) ≡ 0 = omega arith in e)
  take-min (suc cap) (y ∷ ys) =
      ap (λ n. take n (y ∷ ys))
        (let e : min (length (y ∷ ys)) (suc cap) ≡ suc (min (length ys) cap) = omega arith in e)
      ∙ ap (λ (r : List A). y ∷ r) (take-min cap ys)

  -- Filling up to the cap is cutting what there would be.
  fill-take :
      (cap : ℕ) (xs ys : List A)
      → length xs ≤ cap
      → xs ++ take (min (length ys) (cap - length xs)) ys ≡ take cap (xs ++ ys)
  fill-take cap [] ys h =
      ap (λ n. take (min (length ys) n) ys) (let e : cap - 0 ≡ cap = omega arith in e)
      ∙ take-min cap ys
  fill-take zero (x ∷ xs) ys h = absurd (omega arith)
  fill-take (suc cap) (x ∷ xs) ys h =
      ap (λ (r : List A). x ∷ r)
        (ap (λ n. xs ++ take (min (length ys) n) ys)
            (let e : suc cap - length (x ∷ xs) ≡ cap - length xs = omega arith in e)
          ∙ fill-take cap xs ys (omega arith))

  take-take_append : (cap : ℕ) (xs ys : List A) → take cap (take cap xs ++ ys) ≡ take cap (xs ++ ys)
  take-take_append zero xs ys = refl
  take-take_append (suc cap) [] ys = refl
  take-take_append (suc cap) (x ∷ xs) ys = ap (λ (r : List A). x ∷ r) (take-take_append cap xs ys)

evaluate_in-held :
    (p : Phase) (now : ℕ) (owed : Bool) (s : LinkState) → (evaluate_in p now owed s).held ≡ s.held
unfolding evaluate_in judge
evaluate_in-held live now owed s = refl
evaluate_in-held (silent since) now owed s = elim (Bool-cases (leb s.rebuild_after (now - since))) [
  | inl e ↦ rw e refl
  | inr e ↦ rw e refl
]
evaluate_in-held (recovering attempt next_try) now owed s = refl
evaluate_in-held confirming now owed s = refl

module _ (cap : ℕ) (is : max_held ≡ cap) where
  unchanged : (s : LinkState) → length s.held ≤ cap → s.held ≡ take cap (s.held ++ [])
  unchanged s h = rw append-nil (sym (take_all cap s.held h))

  -- Only keys change what is held, and only while there is room.
  step-held :
      (e : Event) (s : LinkState)
      → length s.held ≤ cap
      → (step e s).held ≡ take cap (s.held ++ typed_by e)
  unfolding evaluate begin_attempt rebuilt attempt_failed hold_keys sent retune
  step-held (say now) s h = unchanged s h
  step-held (lap now owed) s h = evaluate_in-held s.phase now owed s ∙ unchanged s h
  step-held (begin now) s h = unchanged s h
  step-held (land now) s h = unchanged s h
  step-held (give_up now) s h = unchanged s h
  step-held (type_keys bytes) s h =
      ap (λ n. s.held ++ take (min (length bytes) (n - length s.held)) bytes) is
      ∙ fill-take cap s.held bytes h
  step-held (tune a b) s h = unchanged s h

  run-held :
      (events : List Event) (s : LinkState)
      → length s.held ≤ cap
      → (run events s).held ≡ take cap (s.held ++ all_typed events)
  run-held [] s h = unchanged s h
  run-held (e ∷ events) s h =
      run-held events (step e s)
        (subst (λ (xs : Bytes). length xs ≤ cap) (sym (step-held e s h)) (length-take-le cap _))
      ∙ ap (λ (xs : Bytes). take cap (xs ++ all_typed events)) (step-held e s h)
      ∙ take-take_append cap (s.held ++ typed_by e) (all_typed events)
      ∙ ap (take cap) (append_assoc s.held (typed_by e) (all_typed events))

-- An outage lasts.
pub evaluate_in-outage :
    (p : Phase) (now : ℕ) (owed : Bool) (s : LinkState)
    → s.phase ≡ p
    → is_outage p ≡ true
    → is_outage (evaluate_in p now owed s).phase ≡ true
unfolding evaluate_in is_outage
evaluate_in-outage live now owed s e h = cc
evaluate_in-outage (silent since) now owed s e h =
    elim (Bool-cases (leb s.rebuild_after (now - since))) [
      | inl t ↦ rw t refl
      | inr t ↦ rw t (rw e refl)
    ]
evaluate_in-outage (recovering attempt next_try) now owed s e h = rw e refl
evaluate_in-outage confirming now owed s e h = cc

begun-outage : (now : ℕ) (p : Phase) → is_outage p ≡ true → is_outage (begun now p) ≡ true
unfolding begun is_outage
begun-outage now live h = h
begun-outage now (silent since) h = refl
begun-outage now (recovering attempt next_try) h = refl
begun-outage now confirming h = h

restarted-outage : (now : ℕ) (p : Phase) → is_outage p ≡ true → is_outage (restarted now p) ≡ true
unfolding restarted is_outage
restarted-outage now live h = h
restarted-outage now (silent since) h = refl
restarted-outage now (recovering attempt next_try) h = refl
restarted-outage now confirming h = h

postponed-outage : (now : ℕ) (p : Phase) → is_outage p ≡ true → is_outage (postponed now p) ≡ true
unfolding postponed is_outage
postponed-outage now live h = h
postponed-outage now (silent since) h = refl
postponed-outage now (recovering attempt next_try) h = refl
postponed-outage now confirming h = h

step-outage :
    (e : Event) (s : LinkState) → is_outage s.phase ≡ true → is_outage (step e s).phase ≡ true
unfolding evaluate begin_attempt rebuilt attempt_failed hold_keys sent retune
step-outage (say now) s h = h
step-outage (lap now owed) s h = evaluate_in-outage s.phase now owed s refl h
step-outage (begin now) s h = begun-outage now s.phase h
step-outage (land now) s h = restarted-outage now s.phase h
step-outage (give_up now) s h = postponed-outage now s.phase h
step-outage (type_keys bytes) s h = h
step-outage (tune a b) s h = h

run-outage :
    (events : List Event) (s : LinkState)
    → is_outage s.phase ≡ true
    → is_outage (run events s).phase ≡ true
run-outage [] s h = h
run-outage (e ∷ events) s h = run-outage events (step e s) (step-outage e s h)

-- For a state in an outage with nothing typed yet, and whatever happens short of a frame's arrival and
-- of the user's settling what was typed: the outage lasts, and what is held is all that was typed in
-- it, in order, up to the first 65,536 bytes. The frame that ends it asks the user if anything was
-- typed, and goes on at once if nothing was.
pub outage-kept :
    (events : List Event) (s : LinkState) (now : ℕ)
    → is_outage s.phase ≡ true
    → s.held ≡ []
    → (is_outage (run events s).phase ≡ true)
      × ((run events s).held ≡ take max_held (all_typed events))
      × ((heard now (run events s)).phase ≡ phase_with (take max_held (all_typed events)))
unfolding heard
outage-kept events s now h empty =
    let none_held : length s.held ≤ max_held = rw empty (omega arith) in
    let kept =
      run-held max_held refl events s none_held
      ∙ ap (λ (xs : Bytes). take max_held (xs ++ all_typed events)) empty in
    (run-outage events s h, kept, ap phase_with kept)
