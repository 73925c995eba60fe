-- ===== src/Term/OscGuard/Pieces.antt =====
-- The pieces in which the child's output arrives do not matter, as long as no OSC exceeds its cap.
use oxutrm.Base.{◌≡◌, refl, sym, ap, ap₂, subst, ◌∙◌, List, [], ◌++◌}
use mathlib.Core.List.{append_cancel_right}
use oxutrm.Proto.Frame.{Bytes}
use oxutrm.Term.OscGuard.{State, ground, escape, osc, discard, OscGuard, feed_all, new}
use oxutrm.Term.OscGuard.Reading.{Reading, outside, escaped, string, Throughout, read_all}
use oxutrm.Term.OscGuard.Passing.{whatever, read_as, Idle}
use oxutrm.Term.OscGuard.Transparent.{flatten, guard_passes}

-- The body of an OSC that is being read.
body_of : Reading → Bytes
body_of outside = []
body_of escaped = []
body_of (string body) = body

-- The guard is settled by the state that it stands for.
held-read_as : (s : State) (held : Bytes) → Idle s held → held ≡ body_of (read_as s held)
unfolding body_of read_as
held-read_as ground held idle = idle
held-read_as escape held idle = idle
held-read_as osc held idle = refl
held-read_as discard held idle = absurd idle

state_of : Reading → State
state_of outside = ground
state_of escaped = escape
state_of (string body) = osc

state-read_as : (s : State) (held : Bytes) → Idle s held → s ≡ state_of (read_as s held)
unfolding state_of read_as
state-read_as ground held idle = refl
state-read_as escape held idle = refl
state-read_as osc held idle = refl
state-read_as discard held idle = absurd idle

-- For a child's output in which every OSC is at each byte within its cap: fed in any two ways of
-- cutting it into pieces, it leaves the guard in the same state, holding the same bytes, and the same
-- bytes are passed on.
pub feed_all_pieces :
    (inputs pieces : List Bytes)
    → flatten inputs ≡ flatten pieces
    → Throughout whatever outside (flatten inputs)
    → feed_all new inputs ≡ feed_all new pieces
feed_all_pieces inputs pieces same calm =
    let (passed, idle, ends) = guard_passes inputs calm in
    let (passed', idle', ends') =
      guard_passes pieces (subst (Throughout whatever outside) same calm) in
    let g = (feed_all new inputs).0 in
    let g' = (feed_all new pieces).0 in
    let stands : read_as g.state g.held ≡ read_as g'.state g'.held =
      ends ∙ ap (read_all whatever outside) same ∙ sym ends' in
    let held : g.held ≡ g'.held =
      held-read_as g.state g.held idle
      ∙ ap body_of stands
      ∙ sym (held-read_as g'.state g'.held idle') in
    let state : g.state ≡ g'.state =
      state-read_as g.state g.held idle
      ∙ ap state_of stands
      ∙ sym (state-read_as g'.state g'.held idle') in
    let out : (feed_all new inputs).1 ≡ (feed_all new pieces).1 =
      append_cancel_right (feed_all new inputs).1 (feed_all new pieces).1 g'.held (
        ap (λ (r : Bytes). (feed_all new inputs).1 ++ r) (sym held)
        ∙ passed
        ∙ same
        ∙ sym passed') in
    let guards : g ≡ g' =
      ap₂ (λ (s : State) (h : Bytes). let r : OscGuard = record { state = s; held = h } in r) state
        held in
    ap₂ (λ (r : OscGuard) (o : Bytes). let pair : OscGuard × Bytes = (r, o) in pair) guards out
