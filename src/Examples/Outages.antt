-- ===== src/Examples/Outages.antt =====
-- A host falls silent while the user types.
use oxutrm.Base.{◌≡◌, refl, true, List, [], ◌∷◌, none, take, arith}
use oxutrm.Program.LinkState.{
  LinkState, new, is_outage, heard, evaluate, secs, silent, phase_with, max_held,
}
use oxutrm.Program.LinkState.Events.{Event, lap, type_keys, begin, run}
use oxutrm.Program.LinkState.Outage.{outage-kept}
use oxutrm.Program.LinkState.Detection.{laps, outage-seen}

outage-seen_example :
    is_outage (evaluate (secs 9) true (laps (secs 8 ∷ []) (evaluate (secs 7) true (new 0)))).phase
    ≡ true
unfolding new
outage-seen_example = outage-seen (new 0) (secs 8 ∷ []) (secs 7) (secs 9) refl (omega arith)

abbrev fallen_silent : LinkState
fallen_silent = record {
  phase = silent 0;
  last_heard = 0;
  owed_since = none;
  last_sent = 0;
  held = [];
  silent_after = secs 2;
  rebuild_after = secs 20;
}

-- Two keys, the escalation to a rebuild between them.
abbrev blind : List Event
blind = type_keys (0x6c ∷ []) ∷ lap (secs 21) true ∷ begin (secs 21) ∷ type_keys (0x73 ∷ []) ∷ []

outage-kept_example :
    (is_outage (run blind fallen_silent).phase ≡ true)
    × ((run blind fallen_silent).held ≡ take max_held (0x6c ∷ 0x73 ∷ []))
    × ((heard (secs 30) (run blind fallen_silent)).phase
        ≡ phase_with (take max_held (0x6c ∷ 0x73 ∷ [])))
unfolding is_outage
outage-kept_example = outage-kept blind fallen_silent (secs 30) refl refl
