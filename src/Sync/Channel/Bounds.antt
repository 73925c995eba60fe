-- ===== src/Sync/Channel/Bounds.antt =====
-- How many states the two rings hold.
use mathlib.Core.List.{Memᴰ}
use oxutrm.Base.{
  ℕ, ◌+◌, ◌≤◌, ◌≡◌, refl, sym, subst, inl, inr, Bool, Result, List, [], ◌∷◌, ◌++◌, arith, length,
  length-append, Bool-cases, ltb, ltb→lt, ltb→ge,
}
use oxutrm.Proto.Types.{ApplyError}
use oxutrm.Proto.Frame.{Frame}
use oxutrm.Sync.State.{SyncState, state_ring}
use oxutrm.Sync.Channel.{
  Codec, Sender, Receiver, entries, trim, saturating_suc, update, commit, hear_ack, kept, on_frame,
}
use oxutrm.Sync.Channel.Receiving.{on_frame_cases}
use oxutrm.Sync.Link.Rings.{newest-trim, mem_last}

module _ {S : Type 0} where
  length-trim :
      (cap : ℕ) (older : List S) (newest : S)
      → 1 ≤ cap
      → length (entries (trim cap older newest)) ≤ cap
  unfolding trim
  length-trim cap [] newest h = h
  length-trim cap (x ∷ older) newest h = elim (Bool-cases (ltb cap (length (x ∷ older) + 1))) [
    | inl e ↦ rw e (length-trim cap older newest h)
    | inr e ↦ rw e (omega (arith, ltb→ge _ _ e, length-append (x ∷ older) (newest ∷ [])))
  ]

  -- The state before the newest survives a cap of two.
  previous-trim :
      (cap : ℕ) (older : List S) (last newest : S)
      → 2 ≤ cap
      → Memᴰ last (trim cap (older ++ last ∷ []) newest).older
  unfolding trim
  previous-trim cap [] last newest h = elim (Bool-cases (ltb cap 2)) [
    | inl e ↦ absurd (omega (arith, ltb→lt _ _ e))
    | inr e ↦ rw e (Memᴰ.head refl)
  ]
  previous-trim cap (x ∷ older) last newest h =
      elim (Bool-cases (ltb cap (length (x ∷ (older ++ last ∷ [])) + 1))) [
        | inl e ↦ rw e (previous-trim cap older last newest h)
        | inr e ↦ rw e (mem_last (x ∷ older) last)
      ]

module _ {S D : Type 0} (ops : SyncState S D) (c : Codec D) where
  -- After `update` the sender holds at most 32 states, the newest is the given one under the next
  -- number, and the state that was current before is still held as a base. A receiver that holds at
  -- most 33 states holds at most 33 after any frame.
  pub rings_bounded :
      (s : Sender S) (next : S) (r : Receiver S) (f : Frame)
      → length (entries r.ring) ≤ state_ring + 1
      → (length (entries (update ops c next s).ring) ≤ state_ring)
        × ((update ops c next s).ring.newest
            ≡ ops.set_seq (saturating_suc (ops.seq s.ring.newest)) next)
        × Memᴰ s.ring.newest (update ops c next s).ring.older
        × (length (entries (on_frame ops c r f).0.ring) ≤ state_ring + 1)
  unfolding update commit
  rings_bounded s next r f within = (
    length-trim state_ring (entries s.ring) _ (omega arith),
    newest-trim state_ring (entries s.ring) _,
    previous-trim state_ring s.ring.older s.ring.newest _ (omega arith),
    elim (on_frame_cases ops c r f) [
      | inl (_, e) ↦ bounded e within
      | inr (inl (_, e)) ↦ bounded e within
      | inr (inr (t, _, _, e)) ↦ bounded e (
          length-trim (state_ring + 1) (kept ops c (hear_ack ops c r f) f.from_state) t
            (omega arith))
    ],
  )
    where
      bounded :
          {o : Receiver S × Result ApplyError Bool}
          → on_frame ops c r f ≡ o
          → length (entries o.0.ring) ≤ state_ring + 1
          → length (entries (on_frame ops c r f).0.ring) ≤ state_ring + 1
      bounded e h =
          subst
            (λ (o : Receiver S × Result ApplyError Bool).
              length (entries o.0.ring) ≤ state_ring + 1)
            (sym e) h
