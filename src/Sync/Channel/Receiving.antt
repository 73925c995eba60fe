-- ===== src/Sync/Channel/Receiving.antt =====
-- What `on_frame` does to a receiver.
use mathlib.Core.List.{Memᴰ}
use oxutrm.Base.{
  ℕ, ◌≤◌, ◌≡◌, ◌≢◌, refl, ap, sym, subst, ◌∙◌, ◌⊎◌, inl, inr, true, false, some, ok, err, arith,
  Bool-cases, Option-cases, Result-cases, List, [], ◌∷◌, find, ==→eq, eq→==, ◌==◌, All, ltb, tests,
}
use oxutrm.Proto.Types.{ApplyError}
use oxutrm.Proto.Frame.{Bytes, Frame}
use oxutrm.Sync.State.{SyncState}
use oxutrm.Sync.Channel.{
  Codec, Receiver, entries, has_seq, payload_bytes, base_for, next_state, is_stale, prune, commit,
  hear_ack, on_frame,
}
use oxutrm.Sync.Link.Rings.{find-some, find-none, mem_last, Rising, Rising-weaken, Held}

module _ {S D : Type 0} (ops : SyncState S D) (c : Codec D) (r : Receiver S) (f : Frame) where
  open ops use {seq}

  -- How `next_state` succeeds.
  pub next_state_ok :
      {t : S}
      → next_state ops c r f ≡ ok t
      → (raw : Bytes) × (d : D) × (payload_bytes c f ≡ ok raw)
        × (c.from_bytes raw ≡ some d)
        × (ops.apply (base_for ops c r f.from_state) f.from_state f.my_state d ≡ ok t)
  unfolding next_state
  next_state_ok h = ground arith

  -- Only a state that passed `validate_transition` comes of a frame.
  pub next_state_checked :
      {t : S} → next_state ops c r f ≡ ok t → ops.validate_transition t r.ring.newest ≡ ok tt
  unfolding next_state
  next_state_checked h = ground arith

  pub next_state_of :
      (raw : Bytes) (d : D) (t : S)
      → payload_bytes c f ≡ ok raw
      → c.from_bytes raw ≡ some d
      → ops.apply (base_for ops c r f.from_state) f.from_state f.my_state d ≡ ok t
      → ops.validate_transition t r.ring.newest ≡ ok tt
      → next_state ops c r f ≡ ok t
  unfolding next_state
  next_state_of raw d t p q a v = ground arith

  -- A diff is applied to the entry that it names, or else to the newest one.
  pub base_for_cases :
      f.from_state ≢ 0
      → (Memᴰ (base_for ops c r f.from_state) (entries r.ring)
          × (seq (base_for ops c r f.from_state) ≡ f.from_state))
        ⊎ ((base_for ops c r f.from_state ≡ r.ring.newest)
            × ((x : S) → Memᴰ x (entries r.ring) → seq x ≢ f.from_state))
  unfolding base_for
  base_for_cases h = elim (Option-cases (find (has_seq ops c f.from_state) (entries r.ring))) [
    | inl e ↦ inr (
      rw (e, base_for) refl,
      λ x m is.
          let hit = eq→== (seq x) f.from_state is in
          let miss = find-none (has_seq ops c f.from_state) (entries r.ring) e m in cc,
    )
    | inr (x, e) ↦
        let (m, t) = find-some (has_seq ops c f.from_state) (entries r.ring) e in
        let is : base_for ops c r f.from_state ≡ x = rw (e, base_for) (ground arith) in
        inl (subst (λ y. Memᴰ y (entries r.ring)) (sym is) m, ap seq is ∙ ==→eq _ _ t)
  ]

  pub base_for-mem : Memᴰ (base_for ops c r f.from_state) (entries r.ring)
  unfolding base_for
  base_for-mem = elim (Option-cases (find (has_seq ops c f.from_state) (entries r.ring))) [
    | inl e ↦
        let is : base_for ops c r f.from_state ≡ r.ring.newest = rw (e, base_for) refl in
        subst (λ y. Memᴰ y (entries r.ring)) (sym is) (mem_last r.ring.older r.ring.newest)
    | inr (x, e) ↦
        let m = (find-some (has_seq ops c f.from_state) (entries r.ring) e).0 in
        elim (Bool-cases (f.from_state == 0)) [
          | inl z ↦
              let is : base_for ops c r f.from_state ≡ r.ring.newest = rw (e, base_for, z) refl in
              subst (λ y. Memᴰ y (entries r.ring)) (sym is) (mem_last r.ring.older r.ring.newest)
          | inr nz ↦
              let is : base_for ops c r f.from_state ≡ x = rw (e, base_for, nz) refl in
              subst (λ y. Memᴰ y (entries r.ring)) (sym is) m
        ]
  ]

  pub on_frame_stale :
      is_stale ops c r f ≡ true → on_frame ops c r f ≡ (hear_ack ops c r f, ok false)
  unfolding on_frame
  on_frame_stale stale = rw stale refl

  pub on_frame_commits :
      {t : S}
      → is_stale ops c r f ≡ false
      → next_state ops c r f ≡ ok t
      → on_frame ops c r f ≡ (commit ops c (hear_ack ops c r f) f.from_state t, ok true)
  unfolding on_frame
  on_frame_commits new e = rw (new, e, on_frame) refl

  -- A frame is stale, refused or committed; only a committed one changes more than what the peer
  -- is known to hold.
  pub on_frame_cases :
      ((is_stale ops c r f ≡ true) × (on_frame ops c r f ≡ (hear_ack ops c r f, ok false)))
      ⊎ ((e : ApplyError) × (on_frame ops c r f ≡ (hear_ack ops c r f, err e)))
      ⊎ ((t : S) × (is_stale ops c r f ≡ false)
          × (next_state ops c r f ≡ ok t)
          × (on_frame ops c r f ≡ (commit ops c (hear_ack ops c r f) f.from_state t, ok true)))
  unfolding on_frame
  on_frame_cases = elim (Bool-cases (is_stale ops c r f)) [
    | inl stale ↦ inl (stale, on_frame_stale stale)
    | inr new ↦ elim (Result-cases (next_state ops c r f)) [
      | inl (t, e) ↦ inr (inr (t, new, e, on_frame_commits new e))
      | inr (x, e) ↦ inr (inl (x, rw (new, e, on_frame) refl))
    ]
  ]

module _ {S D : Type 0} (ops : SyncState S D) (c : Codec D) where
  open ops use {seq}

  pub All-prune {κ} :
      (P : S → Type κ) (from : ℕ) (xs : List S) → All P xs → All P (prune ops c from xs)
  unfolding prune
  All-prune P from [] h = tt
  All-prune P from (x ∷ xs) h = elim (Bool-cases (ltb (seq x) from)) [
    | inl e ↦ rw e (All-prune P from xs h.1)
    | inr e ↦ rw e h
  ]

  pub Rising-prune :
      (from b : ℕ) (xs : List S) (s : S) → Rising seq b xs s → Rising seq b (prune ops c from xs) s
  unfolding prune
  Rising-prune from b [] s h = h
  Rising-prune from b (x ∷ xs) s h = elim (Bool-cases (ltb (seq x) from)) [
    | inl e ↦ rw e (
        Rising-weaken seq b (seq x) (prune ops c from xs) s (omega arith)
          (Rising-prune from (seq x) xs s h.1))
    | inr e ↦ rw e h
  ]

  -- Pruning below a number keeps what has it.
  pub Held-prune :
      (from n : ℕ) (xs : List S) → from ≤ n → Held seq n xs → Held seq n (prune ops c from xs)
  unfolding prune
  Held-prune from n [] h m = m
  Held-prune from n (x ∷ xs) h (y, Memᴰ.head e, is) = elim (Bool-cases (ltb (seq x) from)) [
    | inl low ↦ absurd (omega (tests, ap seq e))
    | inr high ↦ rw high (y, Memᴰ.head e, is)
  ]
  Held-prune from n (x ∷ xs) h (y, Memᴰ.tail m, is) = elim (Bool-cases (ltb (seq x) from)) [
    | inl low ↦ rw low (Held-prune from n xs h (y, m, is))
    | inr high ↦ rw high (y, Memᴰ.tail m, is)
  ]
