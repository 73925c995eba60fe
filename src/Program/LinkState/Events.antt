-- ===== src/Program/LinkState/Events.antt =====
-- What the session loop does to a `LinkState`, as a sequence of events.
use oxutrm.Base.{Bool, ℕ, List, [], ◌∷◌, ◌++◌}
use oxutrm.Proto.Frame.{Bytes}
use oxutrm.Program.LinkState.{
  LinkState, retune, sent, evaluate, begin_attempt, rebuilt, attempt_failed, hold_keys,
}

-- What may happen while no frame arrives and the user settles nothing.
pub data Event : Type 0 where
  say : ℕ → Event
  lap : ℕ → Bool → Event
  begin land give_up : ℕ → Event
  type_keys : Bytes → Event
  tune : ℕ → ℕ → Event

abbrev pub step : Event → LinkState → LinkState
step (say now) s = sent now s
step (lap now reply_owed) s = evaluate now reply_owed s
step (begin now) s = begin_attempt now s
step (land now) s = rebuilt now s
step (give_up now) s = attempt_failed now s
step (type_keys bytes) s = hold_keys bytes s
step (tune silent_after rebuild_after) s = retune silent_after rebuild_after s

-- Events, the first one first.
abbrev pub run : List Event → LinkState → LinkState
run [] s = s
run (e ∷ events) s = run events (step e s)

abbrev pub typed_by : Event → Bytes
typed_by (say now) = []
typed_by (lap now reply_owed) = []
typed_by (begin now) = []
typed_by (land now) = []
typed_by (give_up now) = []
typed_by (type_keys bytes) = bytes
typed_by (tune silent_after rebuild_after) = []

-- All that was typed, in order.
abbrev pub all_typed : List Event → Bytes
all_typed [] = []
all_typed (e ∷ events) = typed_by e ++ all_typed events
