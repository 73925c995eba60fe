-- ===== src/Term/OscGuard/Transparent.antt =====
-- What fits the caps passes unchanged, whatever pieces it arrives in.
use oxutrm.Base.{
  ◌≡◌, refl, sym, ap, subst, ◌∙◌, List, [], ◌∷◌, ◌++◌, ◌==◌, length, append_assoc, append-nil,
  arith,
}
use oxutrm.Proto.Frame.{Bytes}
use oxutrm.Term.OscGuard.{
  State, ground, escape, osc, discard, OscGuard, Pass, before, onward, ends_osc, round_in, round,
  rounds, begin, feed, feed_all, new, esc,
}
use oxutrm.Term.OscGuard.Reading.{
  Reading, outside, read_all, Throughout, before-All, before-append-onward, onward_head,
}
use oxutrm.Term.OscGuard.Trail.{FlushedIn}
use oxutrm.Term.OscGuard.Rounds.{rounds-keep, feed_ends}
use oxutrm.Term.OscGuard.Passing.{
  whatever, read_as, Idle, Future, Passes, in_ground-Passes, in_escape-Passes, osc-Passes,
}

module _ (end : Reading) (whole later : Bytes) where
  round_in-Passes :
      (s : State) (p : Pass)
      → p.guard.state ≡ s
      → Passes end whole later p
      → Passes end whole later (round_in s p)
  unfolding round_in
  round_in-Passes ground p at t =
      in_ground-Passes end whole later (before (λ b. b == esc) p.rest)
        (onward (λ b. b == esc) p.rest) p (before-All (λ b. b == esc) p.rest)
        (onward_head (λ b. b == esc) p.rest) (before-append-onward (λ b. b == esc) p.rest) at t
  round_in-Passes escape p at t = in_escape-Passes end whole later p.rest p refl at t
  round_in-Passes osc p at t =
      osc-Passes end whole later (before ends_osc p.rest) (onward ends_osc p.rest) p
        (before-All ends_osc p.rest) (onward_head ends_osc p.rest)
        (before-append-onward ends_osc p.rest) at (subst (λ s. FlushedIn s p.pending) at t.flushed)
        t
  round_in-Passes discard p at t = absurd (subst (λ s. Idle s p.guard.held) at t.idle)

begun-FlushedIn : (s : State) → FlushedIn s []
begun-FlushedIn ground = tt
begun-FlushedIn escape = tt
begun-FlushedIn osc = refl
begun-FlushedIn discard = refl

feed_passes :
    (end : Reading) (g : OscGuard) (input later : Bytes)
    → Idle g.state g.held
    → Future (read_as g.state g.held) (input ++ later) end
    → Idle (feed g input).0.state (feed g input).0.held
      × ((feed g input).1 ++ (feed g input).0.held ≡ g.held ++ input)
      × Future (read_as (feed g input).0.state (feed g input).0.held) later end
unfolding feed begin round
feed_passes end g input later idle ahead =
    let whole = g.held ++ input in
    let at_first : Passes end whole later (begin g input) = record {
      idle = idle;
      flushed = begun-FlushedIn g.state;
      nothing_lost = refl;
      future = ahead;
    } in
    let p = rounds (length input) (begin g input) in
    let t =
      rounds-keep (Passes end whole later)
        (λ q k. round_in-Passes end whole later q.guard.state q refl k) (length input)
        (begin g input) at_first in
    let read : p.rest ≡ [] = (feed_ends g input (length input) (omega arith)).0 in
    let lost : p.out ++ (p.pending ++ (p.guard.held ++ [])) ≡ whole =
      subst (λ (r : Bytes). p.out ++ (p.pending ++ (p.guard.held ++ r)) ≡ whole) read
        t.nothing_lost in
    (
      t.idle,
      append_assoc p.out p.pending p.guard.held
          ∙ ap (λ (r : Bytes). p.out ++ (p.pending ++ r)) (sym (append-nil p.guard.held))
          ∙ lost,
      subst (λ (r : Bytes). Future (read_as p.guard.state p.guard.held) (r ++ later) end) read
          t.future,
    )

-- The whole of what arrives in pieces.
abbrev pub flatten : List Bytes → Bytes
flatten [] = []
flatten (input ∷ inputs) = input ++ flatten inputs

feed_all_passes :
    (end : Reading) (g : OscGuard) (inputs : List Bytes)
    → Idle g.state g.held
    → Future (read_as g.state g.held) (flatten inputs) end
    → Idle (feed_all g inputs).0.state (feed_all g inputs).0.held
      × ((feed_all g inputs).1 ++ (feed_all g inputs).0.held ≡ g.held ++ flatten inputs)
      × (read_as (feed_all g inputs).0.state (feed_all g inputs).0.held ≡ end)
unfolding feed_all read_all
feed_all_passes end g [] idle ahead = (idle, sym (append-nil g.held), ahead.1)
feed_all_passes end g (input ∷ inputs) idle ahead =
    let (idle', passed, ahead') = feed_passes end g input (flatten inputs) idle ahead in
    let g' = (feed g input).0 in
    let out = (feed g input).1 in
    let more = (feed_all g' inputs).1 in
    let (idle'', passed', ends) = feed_all_passes end g' inputs idle' ahead' in
    (
      idle'',
      append_assoc out more (feed_all g' inputs).0.held
          ∙ ap (λ (r : Bytes). out ++ r) passed'
          ∙ sym (append_assoc out g'.held (flatten inputs))
          ∙ ap (λ (r : Bytes). r ++ flatten inputs) passed
          ∙ append_assoc g.held input (flatten inputs),
      ends,
    )

-- For a child's output in which every OSC, counted with all its bytes, is at each byte within the cap
-- for the number that it has so far: whatever pieces the output arrives in, what the guard passes on
-- and then holds is the output, byte for byte, nothing is being discarded, and the guard is in the
-- state in which the whole output leaves a parser, holding the bytes of the OSC that is still open.
pub guard_passes :
    (inputs : List Bytes)
    → Throughout whatever outside (flatten inputs)
    → ((feed_all new inputs).1 ++ (feed_all new inputs).0.held ≡ flatten inputs)
      × Idle (feed_all new inputs).0.state (feed_all new inputs).0.held
      × (read_as (feed_all new inputs).0.state (feed_all new inputs).0.held
          ≡ read_all whatever outside (flatten inputs))
unfolding new read_as
guard_passes inputs calm =
    let (idle, passed, ends) =
      feed_all_passes (read_all whatever outside (flatten inputs)) new inputs refl (calm, refl) in
    (passed, idle, ends)
