-- ===== src/Program/LinkState/Detection.antt =====
-- A host that owes a reply and stays quiet is found to be silent.
use oxutrm.Base.{
  ℕ, ◌+◌, ◌-◌, ◌≤◌, ◌≡◌, refl, subst, ap, ◌⊎◌, inl, inr, true, List, [], ◌∷◌, none, some, arith,
  le→leb,
}
use oxutrm.Program.LinkState.{
  Phase, live, silent, recovering, confirming, is_outage, LinkState, judge, evaluate_in, evaluate,
  owing,
}
use oxutrm.Program.LinkState.Outage.{evaluate_in-outage}

-- Laps in each of which a reply is owed.
abbrev pub laps : List ℕ → LinkState → LinkState
laps [] s = s
laps (now ∷ times) s = laps times (evaluate now true s)

-- In an outage, or waiting for a reply since then.
abbrev IsWaiting : ℕ → ℕ → LinkState → Type 0
IsWaiting since grace s =
    (is_outage s.phase ≡ true) ⊎ ((s.owed_since ≡ some since) × (s.silent_after ≡ grace))

module _ (now : ℕ) (s : LinkState) where
  judge-late :
      (since : ℕ)
      → owing now true s.owed_since ≡ some since
      → since + s.silent_after ≤ now
      → is_outage (judge now true s).phase ≡ true
  unfolding judge is_outage
  judge-late since e late =
      let over = le→leb s.silent_after (now - since) (omega arith) in rw e (rw over refl)

  -- One lap in any phase: an outage lasts, and the wait goes on or has become an outage.
  lap-IsWaiting :
      (p : Phase) (since : ℕ)
      → s.phase ≡ p
      → owing now true s.owed_since ≡ some since
      → IsWaiting since s.silent_after (evaluate_in p now true s)
        × (since + s.silent_after ≤ now → is_outage (evaluate_in p now true s).phase ≡ true)
  unfolding evaluate_in judge
  lap-IsWaiting live since e owed = (inr (owed, refl), judge-late since owed)
  lap-IsWaiting confirming since e owed = (inr (owed, refl), judge-late since owed)
  lap-IsWaiting (silent last) since e owed =
      let still = evaluate_in-outage (silent last) now true s e (unfold is_outage in refl) in
      (inl still, λ _. still)
  lap-IsWaiting (recovering attempt next_try) since e owed =
      let still =
        evaluate_in-outage (recovering attempt next_try) now true s e (unfold is_outage in refl) in
      (inl still, λ _. still)

laps-IsWaiting :
    (times : List ℕ) (since grace : ℕ) (s : LinkState)
    → IsWaiting since grace s
    → IsWaiting since grace (laps times s)
laps-IsWaiting [] since grace s w = w
laps-IsWaiting (now ∷ times) since grace s (inl out) =
    laps-IsWaiting times since grace (evaluate now true s)
      (inl (unfold evaluate in evaluate_in-outage s.phase now true s refl out))
laps-IsWaiting (now ∷ times) since grace s (inr (owed, same)) =
    laps-IsWaiting times since grace (evaluate now true s) (
      unfold evaluate in
      subst (λ g. IsWaiting since g (evaluate_in s.phase now true s)) same
        (lap-IsWaiting now s s.phase since refl (ap (owing now true) owed)).0)

-- In any state in which no reply was owed: once laps find that one is owed, the first of them at
-- `since`, a lap at least the grace period later is in an outage, whatever laps, in all of which the
-- reply is owed, come between, if nothing but laps does.
pub outage-seen :
    (s : LinkState) (times : List ℕ) (since now : ℕ)
    → s.owed_since ≡ none
    → since + s.silent_after ≤ now
    → is_outage (evaluate now true (laps times (evaluate since true s))).phase ≡ true
unfolding evaluate
outage-seen s times since now none_owed late =
    let first = (lap-IsWaiting since s s.phase since refl (ap (owing since true) none_owed)).0 in
    last (laps times (evaluate since true s))
      (laps-IsWaiting times since s.silent_after (evaluate since true s) first)
  where
    last :
        (t : LinkState)
        → IsWaiting since s.silent_after t
        → is_outage (evaluate_in t.phase now true t).phase ≡ true
    last t (inl out) = evaluate_in-outage t.phase now true t refl out
    last t (inr (owed, same)) =
        (lap-IsWaiting now t t.phase since refl (ap (owing now true) owed)).1
          (omega (arith, same, late))
