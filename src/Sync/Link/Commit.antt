-- ===== src/Sync/Link/Commit.antt =====
-- Delivering a frame keeps a link's invariant.
use mathlib.Core.List.{Memᴰ}
use oxutrm.Base.{
  ℕ, ◌+◌, ◌≤◌, ◌<◌, ◌≡◌, refl, sym, ap, subst, inl, inr, Bool, true, false, List, [], ◌∷◌, ◌++◌,
  Result, All, arith,
}
use oxutrm.Proto.Types.{ApplyError}
use oxutrm.Proto.Frame.{Frame}
use oxutrm.Sync.State.{SyncState, Lawful, state_ring}
use oxutrm.Sync.Channel.{
  Codec, Receiver, entries, trim, hear_ack, kept, commit, is_stale, on_frame, prune,
}
use oxutrm.Sync.Channel.Receiving.{on_frame_cases, All-prune, Rising-prune, Held-prune}
use oxutrm.Sync.Link.Rings.{
  All-mem, All-map, All-trim, Rising, Rising-push, Rising-trim, Held, Held-trim, newest-trim,
}
use oxutrm.Sync.Link.Authored.{history_legal, history_le}
use oxutrm.Sync.Link.Invariant.{
  Carries, whole, change, IsAckOf, nothing_yet, promised, IsClientOf, fresh, fed, Inv,
}
use oxutrm.Sync.Link.Delivery.{next_is_authored}
use oxutrm.Sync.Link.{Link}

mem-push {ℓ} : {A : Type ℓ} {x : A} (xs : List A) (y : A) → Memᴰ x xs → Memᴰ x (xs ++ y ∷ [])
mem-push [] y m = elim m [ ]
mem-push (z ∷ xs) y (Memᴰ.head e) = Memᴰ.head e
mem-push (z ∷ xs) y (Memᴰ.tail m) = Memᴰ.tail (mem-push xs y m)

module _ {S D : Type 0} {ops : SyncState S D} (c : Codec D) (laws : Lawful ops) (local : S)
    (l : Link S) (inv : Inv c laws local l) (f : Frame) where
  open ops use {seq}
  open l use {host, authored, client}

  -- A new frame is newer than what a fed client shows.
  pub fresh_newer :
      is_stale ops c client f ≡ false
      → client.applied_any ≡ true
      → seq client.ring.newest < f.my_state
  unfolding is_stale
  fresh_newer h a = ground arith

  heard_client :
      IsClientOf c laws authored local client
      → IsClientOf c laws authored local (hear_ack ops c client f)
  heard_client (fresh a e) = fresh a e
  heard_client (fed a m o) = fed a m o

  heard_ack :
      (p k n : ℕ) → IsAckOf c laws p k client n → IsAckOf c laws p k (hear_ack ops c client f) n
  heard_ack p k n (nothing_yet e) = nothing_yet e
  heard_ack p k n (promised a b keep) = promised a b keep

  -- The invariant with another client.
  with_client :
      (r : Receiver S)
      → IsClientOf c laws authored local r
      → ((n : ℕ)
          → IsAckOf c laws host.peer_saw (seq host.ring.newest) client n
          → IsAckOf c laws host.peer_saw (seq host.ring.newest) r n)
      → Inv c laws local (record l { client = r })
  with_client r k p = record {
    local_legal = inv.local_legal;
    history = inv.history;
    latest = inv.latest;
    from_local = inv.from_local;
    held = inv.held;
    run = inv.run;
    window = inv.window;
    client = k;
    frames = inv.frames;
    promises = All-map (host.peer_saw ∷ l.acks) p inv.promises;
  }

  module _ (s : S) (m : Memᴰ s authored) (at : seq s ≡ f.my_state)
      (known : f.from_state ≤ host.peer_saw) (new : is_stale ops c client f ≡ false) where
    -- What the ring holds before the new state is pushed.
    kept-Rising :
        IsClientOf c laws authored local client
        → Rising seq 0 (kept ops c (hear_ack ops c client f) f.from_state) s
          × All (λ x. Memᴰ x authored) (kept ops c (hear_ack ops c client f) f.from_state)
    unfolding kept prune
    kept-Rising (fresh a e) = rw (a, kept) ((history_legal laws authored inv.history m).1, tt)
    kept-Rising (fed a known_entries o) =
        rw (a, kept)
          (
            Rising-prune ops c f.from_state 0 (entries client.ring) s (
                Rising-push seq 0 client.ring.older client.ring.newest s o
                  (omega (arith, fresh_newer new a))),
            All-prune ops c _ f.from_state (entries client.ring) known_entries,
          )

    committed_client :
        IsClientOf c laws authored local (commit ops c (hear_ack ops c client f) f.from_state s)
    unfolding commit
    committed_client =
        let (rising, mems) = kept-Rising inv.client in
        let before = kept ops c (hear_ack ops c client f) f.from_state in
        fed refl (All-trim (λ x. Memᴰ x authored) (state_ring + 1) before s mems m)
          (Rising-trim seq (state_ring + 1) 0 before s rising)

    kept-Held :
        client.applied_any ≡ true
        → (n : ℕ) → host.peer_saw ≤ n
        → Held seq n (entries client.ring)
        → Held seq n (kept ops c (hear_ack ops c client f) f.from_state)
    unfolding kept
    kept-Held a n over h =
        rw (a, kept) (Held-prune ops c f.from_state n (entries client.ring) (omega arith) h)

    committed_ack :
        (n : ℕ)
        → IsAckOf c laws host.peer_saw (seq host.ring.newest) client n
        → IsAckOf c laws host.peer_saw
            (seq host.ring.newest)
            (commit ops c (hear_ack ops c client f) f.from_state s)
            n
    unfolding commit
    committed_ack n (nothing_yet e) = nothing_yet e
    committed_ack n (promised a b keep) =
        promised refl (omega (arith, ap seq same, fresh_newer new a)) still
      where
        before : List S
        before = kept ops c (hear_ack ops c client f) f.from_state

        same : (trim (state_ring + 1) before s).newest ≡ s
        same = newest-trim (state_ring + 1) before s

        still :
            host.peer_saw ≤ n
            → seq host.ring.newest < n + state_ring
            → Held seq n (entries (trim (state_ring + 1) before s))
        still over within =
            let (x, mx, is) = kept-Held a n over (keep over within) in
            Held-trim seq (state_ring + 1) 0 n before s (kept-Rising inv.client).0
              (omega (arith, history_le laws authored inv.history inv.latest m))
              (x, mem-push before s mx, is)

  pub deliver-Inv :
      Memᴰ f l.sent → Inv c laws local (record l { client = (on_frame ops c client f).0 })
  deliver-Inv sent = elim (on_frame_cases ops c client f) [
    | inl (stale, e) ↦ moved (ap (λ (o : Outcome). o.0) e) unchanged
    | inr (inl (x, e)) ↦ moved (ap (λ (o : Outcome). o.0) e) unchanged
    | inr (inr (t, new, led, e)) ↦
        let (s, m, at, carries) = All-mem _ l.sent inv.frames sent in
        let is = next_is_authored c laws local l inv f s m at carries led in
        moved (ap (λ (o : Outcome). o.0) e) (
          subst
            (λ x.
              Inv c laws local
                (record l { client = commit ops c (hear_ack ops c client f) f.from_state x }))
            (sym is)
            (with_client _ (committed_client s m at (base_known carries) new)
              (committed_ack s m at (base_known carries) new)))
  ]
    where
      Outcome : Type 0
      Outcome = Receiver S × Result ApplyError Bool

      moved :
          {r : Receiver S}
          → (on_frame ops c client f).0 ≡ r
          → Inv c laws local (record l { client = r })
          → Inv c laws local (record l { client = (on_frame ops c client f).0 })
      moved e i = subst (λ r. Inv c laws local (record l { client = r })) (sym e) i

      unchanged : Inv c laws local (record l { client = hear_ack ops c client f })
      unchanged = with_client _ (heard_client inv.client) (heard_ack _ _)

      base_known :
          {s : S} → Carries c laws authored host.peer_saw f s → f.from_state ≤ host.peer_saw
      base_known (whole from d) = omega arith
      base_known (change b mb from le d) = le
