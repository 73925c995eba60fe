-- ===== src/Sync/Link/Landing.antt =====
-- Where one frame made now leaves a client whose link keeps the invariant.
use mathlib.Core.List.{Memᴰ}
use oxutrm.Base.{
  ℕ, ◌+◌, ◌≤◌, ◌<◌, ◌≡◌, ◌≢◌, refl, sym, ap, subst, ◌∙◌, inl, inr, Bool, true, false, Option, none,
  some, Result, ok, err, arith, length, Bool-cases, ◌⊎◌,
}
use oxutrm.Proto.Types.{ApplyError}
use oxutrm.Proto.Frame.{Bytes, Frame}
use oxutrm.Sync.State.{SyncState, Lawful, state_ring}
use oxutrm.Sync.Channel.{
  Codec, CodecLaws, Receiver, Ring, entries, payload_bytes, commit, is_stale, on_frame, outgoing,
  make_frame, frame_of, max_decompressed,
}
use oxutrm.Sync.Channel.Payload.{payload_bytes-pack}
use oxutrm.Sync.Channel.Sending.{
  make_frame_cases, make_frame_silent, outgoing_cases, frame_of_packed,
}
use oxutrm.Sync.Channel.Receiving.{on_frame_stale, on_frame_commits}
use oxutrm.Sync.Link.Rings.{All-mem, Held, newest-trim, mem_last}
use oxutrm.Sync.Link.Authored.{
  Latest-mem, history_legal, history_unique, history_follows, history_le,
}
use oxutrm.Sync.Link.Invariant.{
  Carries, IsAckOf, nothing_yet, promised, IsClientOf, fresh, fed, Inv,
}
use oxutrm.Sync.Link.Steps.{made_carries}
use oxutrm.Sync.Link.Delivery.{next_state_lands}
use oxutrm.Sync.Link.Commit.{fresh_newer}
use oxutrm.Sync.Link.{Link}

-- One frame sent now and delivered: what the client is after it.
abbrev pub exchange : {S D : Type 0} → SyncState S D → Codec D → ℕ → Link S → Receiver S
exchange ops c a l = elim (make_frame ops c a l.host).1 [
  | ok sent ↦ elim sent [ some f ↦ (on_frame ops c l.client f).0 | none ↦ l.client ]
  | err _ ↦ l.client
]

module _ {S D : Type 0} {ops : SyncState S D} (c : Codec D) (codec : CodecLaws c)
    (laws : Lawful ops) (local : S) where
  open ops use {seq}
  open laws use {Legal, Follows}

  module _ (l : Link S) (inv : Inv c laws local l) where
    open l use {host, authored, client}

    latest_mem : Memᴰ host.ring.newest authored
    latest_mem = Latest-mem laws authored inv.latest

    -- A client with a state as new as the host's shows that state.
    caught_up :
        IsClientOf c laws authored local client
        → client.applied_any ≡ true
        → seq host.ring.newest ≤ seq client.ring.newest
        → client.ring.newest ≡ host.ring.newest
    caught_up (fresh a e) b le = absurd (cc)
    caught_up (fed a known o) b le =
        let m = All-mem _ (entries client.ring) known (mem_last client.ring.older _) in
        history_unique laws authored inv.history m latest_mem
          (omega (arith, history_le laws authored inv.history inv.latest m))

    -- A host that hears of no gap has none.
    silent_caught_up : host.peer_saw ≡ seq host.ring.newest → client.ring.newest ≡ host.ring.newest
    silent_caught_up e = go inv.promises.0
      where
        go :
            IsAckOf c laws host.peer_saw (seq host.ring.newest) client host.peer_saw
            → client.ring.newest ≡ host.ring.newest
        go (nothing_yet z) =
            absurd (omega (arith, (history_legal laws authored inv.history latest_mem).1))
        go (promised a le keep) = caught_up inv.client a (omega arith)

    module _ (one : seq local ≡ 1) (f : Frame) (current : f.my_state ≡ seq host.ring.newest) where
      -- A stale frame of the current state finds a client that has it.
      stale_caught_up :
          (f.from_state ≢ 0 → client.applied_any ≡ true)
          → is_stale ops c client f ≡ true
          → client.ring.newest ≡ host.ring.newest
      unfolding is_stale
      stale_caught_up based stale = elim (Bool-cases client.applied_any) [
        | inl a ↦ caught_up inv.client a (ground arith)
        | inr a ↦ absurd (
            ground (
              arith,
              (history_legal laws authored inv.history latest_mem).1,
              first inv.client,
              based,
            ))
      ]
        where
          first :
              IsClientOf c laws authored local client
              → (client.applied_any ≡ true) ⊎ (seq client.ring.newest ≡ 1)
          first (fresh a e) = inr (ap (λ (r : Ring S). seq r.newest) e ∙ one)
          first (fed a known o) = inl a

      newer_follows :
          IsClientOf c laws authored local client
          → is_stale ops c client f ≡ false
          → Follows host.ring.newest client.ring.newest
      newer_follows (fresh a e) new =
          subst (Follows host.ring.newest) (sym (ap (λ (r : Ring S). r.newest) e))
            (All-mem _ authored inv.from_local latest_mem)
      newer_follows (fed a known o) new =
          history_follows laws authored inv.history latest_mem
            (All-mem _ (entries client.ring) known (mem_last client.ring.older _))
            (omega (arith, fresh_newer c laws local l inv f new a))

      lands :
          (raw : Bytes)
          → payload_bytes c f ≡ ok raw
          → (f.from_state ≢ 0
              → (client.applied_any ≡ true) × Held seq f.from_state (entries client.ring))
          → Carries c laws authored host.peer_saw f host.ring.newest
          → (on_frame ops c client f).0.ring.newest ≡ host.ring.newest
      unfolding commit
      lands raw p has carries = elim (Bool-cases (is_stale ops c client f)) [
        | inl stale ↦
            ap (λ (o : Receiver S × Result ApplyError Bool). o.0.ring.newest)
              (on_frame_stale ops c client f stale)
            ∙ stale_caught_up (λ n. (has n).0) stale
        | inr new ↦
            ap (λ (o : Receiver S × Result ApplyError Bool). o.0.ring.newest)
              (on_frame_commits ops c client f new (
                next_state_lands c laws local l inv f host.ring.newest latest_mem (sym current) raw
                  p (newer_follows inv.client new) (λ n. (has n).1) carries))
            ∙ newest-trim (state_ring + 1) _ host.ring.newest
      ]

    -- The base that the host names is one that the client still holds.
    base-Held :
        (outgoing ops c host).1 ≢ 0
        → (client.applied_any ≡ true) × Held seq (outgoing ops c host).1 (entries client.ring)
    base-Held n = elim (outgoing_cases ops c host) [
      | inl none_held ↦ absurd (n (ap (λ (o : D × ℕ). o.1) none_held))
      | inr (base, m, at, named) ↦
          let from : (outgoing ops c host).1 ≡ host.peer_saw = ap (λ (o : D × ℕ). o.1) named ∙ at in
          let within = All-mem _ (entries host.ring) inv.window m in
          subst (λ k. (client.applied_any ≡ true) × Held seq k (entries client.ring)) (sym from)
            (go (λ z. n (from ∙ z)) (omega (arith, within)) inv.promises.0)
    ]
      where
        go :
            host.peer_saw ≢ 0
            → seq host.ring.newest < host.peer_saw + state_ring
            → IsAckOf c laws host.peer_saw (seq host.ring.newest) client host.peer_saw
            → (client.applied_any ≡ true) × Held seq host.peer_saw (entries client.ring)
        go nz within (nothing_yet z) = absurd (nz z)
        go nz within (promised a le keep) = (a, keep (omega arith) within)

    pub exchange_lands :
        seq local ≡ 1
        → (a : ℕ) (raw : Bytes) → c.to_stdvec (outgoing ops c host).0 ≡ some raw
        → length raw ≤ max_decompressed
        → (exchange ops c a l).ring.newest ≡ host.ring.newest
    unfolding frame_of
    exchange_lands one a raw e fits = elim (make_frame_cases ops c a host raw e) [
      | inl none_made ↦
          ap (λ (o : Result ApplyError (Option Frame)). (after o).ring.newest) none_made
          ∙ silent_caught_up (make_frame_silent ops c a host none_made).0
      | inr made ↦
          ap (λ (o : Result ApplyError (Option Frame)). (after o).ring.newest) made
          ∙ lands one (frame_of ops c host (outgoing ops c host).1 a raw) refl raw
              (payload_bytes-pack c codec _ raw
                (frame_of_packed ops c host (outgoing ops c host).1 a raw) fits).0
              base-Held (made_carries c codec laws local l inv a raw e)
    ]
      where
        after : Result ApplyError (Option Frame) → Receiver S
        after r = elim r [
          | ok sent ↦ elim sent [ some f ↦ (on_frame ops c client f).0 | none ↦ client ]
          | err _ ↦ client
        ]
