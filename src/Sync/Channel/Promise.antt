-- ===== src/Sync/Channel/Promise.antt =====
-- What a receiver's acknowledgement promises, whatever frames arrive.
use oxutrm.Base.{
  ◌+◌, ◌<◌, ◌≡◌, ◌≢◌, ap, ◌∙◌, ◌⊎◌, inl, inr, Bool, true, false, Result, ok, arith, max, dec_lt,
}
use oxutrm.Proto.Types.{ApplyError}
use oxutrm.Proto.Frame.{Frame}
use oxutrm.Sync.State.{SyncState, Lawful, state_ring}
use oxutrm.Sync.Channel.{Codec, Receiver, ack, base_for, next_state, is_stale, commit, on_frame}
use oxutrm.Sync.Channel.Receiving.{on_frame_cases, next_state_ok}
use oxutrm.Sync.Link.Rings.{newest-trim}

module _ {S D : Type 0} (ops : SyncState S D) (c : Codec D) (laws : Lawful ops) (r : Receiver S)
    (f : Frame) where
  open ops use {seq}

  newest_numbered : {t : S} → next_state ops c r f ≡ ok t → seq t ≡ f.my_state
  newest_numbered {t} h =
      let (_, d, _, _, led) = next_state_ok ops c r f h in
      laws.apply_numbered (base_for ops c r f.from_state) t f.from_state f.my_state d led

  -- A frame either advances the receiver or changes nothing but the peer's acknowledgement. Where it
  -- advances, the new acknowledgement is the number that the frame names, which is past the held one
  -- or, for the peer's first full state alone, equal to it. Where it is stale or refused, the
  -- receiver is as it was but for the greatest acknowledgement heard, so what it promises the peer is
  -- unchanged.
  pub on_frame_promise :
      (((on_frame ops c r f).1 ≡ ok true)
        × (ack ops c (on_frame ops c r f).0 ≡ f.my_state)
        × ((seq r.ring.newest < f.my_state)
            ⊎ ((seq r.ring.newest ≡ f.my_state) × (f.from_state ≡ 0) × (r.applied_any ≡ false))))
      ⊎ (((on_frame ops c r f).1 ≢ ok true)
          × ((on_frame ops c r f).0 ≡ record r { peer_ack = max r.peer_ack f.ack_state })
          × (ack ops c (on_frame ops c r f).0 ≡ ack ops c r))
  unfolding ack commit is_stale
  on_frame_promise = elim (on_frame_cases ops c r f) [
    | inl (_, e) ↦
        inr (ground (arith, e), ap (λ (o : Outcome). o.0) e, ap (λ (o : Outcome). ack ops c o.0) e)
    | inr (inl (x, e)) ↦
        inr (ground (arith, e), ap (λ (o : Outcome). o.0) e, ap (λ (o : Outcome). ack ops c o.0) e)
    | inr (inr (t, new, led, e)) ↦ inl (
      ap (λ (o : Outcome). o.1) e,
      ap (λ (o : Outcome). ack ops c o.0) e
          ∙ ap seq (newest-trim (state_ring + 1) _ t)
          ∙ newest_numbered led,
      advances new,
    )
  ]
    where
      Outcome : Type 0
      Outcome = Receiver S × Result ApplyError Bool

      advances :
          is_stale ops c r f ≡ false
          → (seq r.ring.newest < f.my_state)
            ⊎ ((seq r.ring.newest ≡ f.my_state) × (f.from_state ≡ 0) × (r.applied_any ≡ false))
      advances new = elim (dec_lt (seq r.ring.newest) f.my_state) [
        | yes lt ↦ inl lt
        | no ge ↦ inr (ground (arith, new, ge), ground (arith, new, ge), ground (arith, new, ge))
      ]
