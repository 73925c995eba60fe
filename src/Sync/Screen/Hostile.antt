-- ===== src/Sync/Screen/Hostile.antt =====
-- What a receiver of screens accepts from a peer that it does not trust.
use oxutrm.Base.{◌+◌, ◌≡◌, sym, ap, subst, ◌∙◌, inl, inr, Bool, Result, ok, arith, >>-eq-ok}
use oxutrm.Proto.Types.{ApplyError}
use oxutrm.Proto.Frame.{Frame}
use oxutrm.Proto.Screen.{ScreenState, validate, validate_transition}
use oxutrm.Proto.Screen.Valid.{IsValid, validate_iff}
use oxutrm.Sync.State.{state_ring}
use oxutrm.Sync.Channel.{Codec, Receiver, next_state, on_frame, commit}
use oxutrm.Sync.Channel.Receiving.{next_state_checked, on_frame_cases}
use oxutrm.Sync.Link.Rings.{newest-trim}
use oxutrm.Sync.Screen.{ScreenDiff, screen_ops}
use oxutrm.Sync.Screen.Contract.{IsLater}

IsLater-refl : (s : ScreenState) → IsLater s s
IsLater-refl s = record {
  bell_kept = omega arith;
  scrollback_kept = omega arith;
  serial_kept = omega arith;
}

transition_sound : (s t : ScreenState) → validate_transition s t ≡ ok tt → IsValid s × IsLater s t
unfolding validate_transition
transition_sound s t h =
    let (valid, later) = >>-eq-ok (validate s) _ h in
    ((validate_iff s).0 valid, ground (arith, later))

next_state_sound :
    (c : Codec ScreenDiff) (r : Receiver ScreenState) (f : Frame) {s : ScreenState}
    → next_state screen_ops c r f ≡ ok s
    → IsValid s × IsLater s r.ring.newest
unfolding screen_ops
next_state_sound c r f {s} h =
    transition_sound s r.ring.newest (next_state_checked screen_ops c r f h)

-- Whatever the peer sends, however its bytes decode, and whatever zstd and postcard make of them: if
-- the newest screen keeps the invariants, so does the newest screen after the frame, and neither its
-- bell, nor its scrollback, nor its clipboard's serial has gone back.
pub on_frame-IsValid :
    (c : Codec ScreenDiff) (r : Receiver ScreenState) (f : Frame)
    → IsValid r.ring.newest
    → IsValid (on_frame screen_ops c r f).0.ring.newest
      × IsLater (on_frame screen_ops c r f).0.ring.newest r.ring.newest
unfolding commit
on_frame-IsValid c r f valid = elim (on_frame_cases screen_ops c r f) [
  | inl (_, e) ↦ moved (ap (λ (o : Outcome). o.0.ring.newest) e) unchanged
  | inr (inl (_, e)) ↦ moved (ap (λ (o : Outcome). o.0.ring.newest) e) unchanged
  | inr (inr (s, _, led, e)) ↦
      moved (ap (λ (o : Outcome). o.0.ring.newest) e ∙ newest-trim (state_ring + 1) _ s)
        (next_state_sound c r f led)
]
  where
    Outcome : Type 0
    Outcome = Receiver ScreenState × Result ApplyError Bool

    moved :
        {a b : ScreenState}
        → a ≡ b
        → IsValid b × IsLater b r.ring.newest
        → IsValid a × IsLater a r.ring.newest
    moved e h = subst (λ s. IsValid s × IsLater s r.ring.newest) (sym e) h

    unchanged : IsValid r.ring.newest × IsLater r.ring.newest r.ring.newest
    unchanged = (valid, IsLater-refl r.ring.newest)
