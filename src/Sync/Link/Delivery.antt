-- ===== src/Sync/Link/Delivery.antt =====
-- A delivered frame leads the client to a state of the host, and keeps the link's invariant.
use mathlib.Core.List.{Memᴰ}
use oxutrm.Base.{
  ℕ, ◌≤◌, ◌<◌, ◌≡◌, ◌≢◌, refl, sym, ap, subst, ◌∙◌, inl, inr, true, Result, ok, All, arith, ◌⊎◌,
}
use oxutrm.Proto.Types.{ApplyError}
use oxutrm.Proto.Frame.{Bytes, Frame}
use oxutrm.Sync.State.{SyncState, Lawful}
use oxutrm.Sync.Channel.{Codec, Ring, entries, payload_bytes, next_state, base_for}
use oxutrm.Sync.Channel.Receiving.{base_for-mem, next_state_ok, next_state_of, base_for_cases}
use oxutrm.Sync.Link.Rings.{All-mem, All-map, Held, mem_last}
use oxutrm.Sync.Link.Authored.{history_legal, history_unique}
use oxutrm.Sync.Link.Invariant.{
  Carries, whole, change, IsAckOf, nothing_yet, promised, IsClientOf, fresh, fed, Inv,
}
use oxutrm.Sync.Link.{Link}

module _ {S D : Type 0} {ops : SyncState S D} (c : Codec D) (laws : Lawful ops) (local : S)
    (l : Link S) (inv : Inv c laws local l) (f : Frame) where
  open ops use {seq}
  open l use {host, authored}
  open laws use {Legal, Follows}

  -- A client that was promised a base has states of the host only.
  pub fed_entries :
      0 < host.peer_saw
      → (l.client.applied_any ≡ true) × All (λ x. Memᴰ x authored) (entries l.client.ring)
  fed_entries h = go inv.promises.0 inv.client
    where
      go :
          IsAckOf c laws host.peer_saw (seq host.ring.newest) l.client host.peer_saw
          → IsClientOf c laws authored local l.client
          → (l.client.applied_any ≡ true) × All (λ x. Memᴰ x authored) (entries l.client.ring)
      go (nothing_yet e) k = absurd (omega arith)
      go (promised a b keep) (fresh no_frame e) = absurd (cc)
      go (promised a b keep) (fed a' m o) = (a', m)

  base_legal : Legal (base_for ops c l.client f.from_state)
  base_legal = All-mem Legal (entries l.client.ring) (go inv.client) (base_for-mem ops c l.client f)
    where
      go : IsClientOf c laws authored local l.client → All Legal (entries l.client.ring)
      go (fresh a e) = subst (λ (r : Ring S). All Legal (entries r)) (sym e) (inv.local_legal, tt)
      go (fed a m o) =
          All-map (entries l.client.ring) (λ x k. (history_legal laws authored inv.history k).0) m

  apply_cong :
      {b b' : S} {d d' : D} {i j n n' : ℕ} {o : Result ApplyError S}
      → b ≡ b'
      → i ≡ j
      → n ≡ n'
      → d ≡ d'
      → ops.apply b' j n' d' ≡ o
      → ops.apply b i n d ≡ o
  apply_cong b p q r e = cc

  module _ (s : S) (m : Memᴰ s authored) (at : seq s ≡ f.my_state) where
    whole_applies :
        f.from_state ≡ 0
        → (held : S) → Legal held
        → ops.apply held f.from_state f.my_state (ops.full_diff s) ≡ ok s
    whole_applies from held ready =
        apply_cong refl from (sym at) refl
          (laws.apply-full_diff s held (history_legal laws authored inv.history m).0 ready)

    change_applies :
        (base held : S)
        → Memᴰ base authored
        → seq base ≡ f.from_state
        → held ≡ base
        → ops.apply held f.from_state f.my_state (ops.diff_from s base) ≡ ok s
    change_applies base held mb from same = apply_cong same (sym from) (sym at) refl (
        laws.apply-diff_from s base (history_legal laws authored inv.history m).0
          (history_legal laws authored inv.history mb).0)

    named_base :
        (base : S)
        → Memᴰ base authored
        → seq base ≡ f.from_state
        → f.from_state ≤ host.peer_saw
        → (base_for ops c l.client f.from_state ≡ base)
          ⊎ (f.from_state ≢ seq (base_for ops c l.client f.from_state))
            × ((x : S) → Memᴰ x (entries l.client.ring) → seq x ≢ f.from_state)
    named_base base mb from le =
        let above = (history_legal laws authored inv.history mb).1 in
        let (_, known) = fed_entries (omega arith) in
        elim (base_for_cases ops c l.client f (λ zero_from. absurd (omega arith))) [
          | inl (mx, is) ↦ inl (
              history_unique laws authored inv.history (All-mem _ (entries l.client.ring) known mx)
                mb (is ∙ sym from))
          | inr (newest, missing) ↦ inr (
            (λ e.
                missing l.client.ring.newest (mem_last l.client.ring.older _)
                  (sym (e ∙ ap seq newest))),
            missing,
          )
        ]

    -- The only state that a frame can lead to is the one that it was made for.
    pub next_is_authored :
        Carries c laws authored host.peer_saw f s
        → {t : S} → next_state ops c l.client f ≡ ok t
        → t ≡ s
    next_is_authored (whole from decodes) {t} h =
        let (raw, d, p, q, a) = next_state_ok ops c l.client f h in
        let is : d ≡ ops.full_diff s = let twice = sym q ∙ decodes raw p in cc in
        let good = apply_cong refl refl refl is (whole_applies from _ base_legal) in
        let same = sym a ∙ good in cc
    next_is_authored (change base mb from le decodes) {t} h =
        let (raw, d, p, q, a) = next_state_ok ops c l.client f h in
        let is : d ≡ ops.diff_from s base = let twice = sym q ∙ decodes raw p in cc in
        let above = (history_legal laws authored inv.history mb).1 in
        elim (named_base base mb from le) [
          | inl named ↦
              let good = apply_cong refl refl refl is (change_applies base _ mb from named) in
              let same = sym a ∙ good in cc
          | inr (other, _) ↦ absurd (
              laws.apply_mismatch _ t f.from_state f.my_state d (λ e. absurd (omega arith)) other a)
        ]

    -- A frame that can be read leads to its state, where the client still holds the base and has
    -- nothing newer.
    pub next_state_lands :
        (raw : Bytes)
        → payload_bytes c f ≡ ok raw
        → Follows s l.client.ring.newest
        → (f.from_state ≢ 0 → Held seq f.from_state (entries l.client.ring))
        → Carries c laws authored host.peer_saw f s
        → next_state ops c l.client f ≡ ok s
    next_state_lands raw p follows has (whole from decodes) =
        next_state_of ops c l.client f raw (ops.full_diff s) s p (decodes raw p)
          (whole_applies from _ base_legal)
          (laws.transition_ok s l.client.ring.newest (history_legal laws authored inv.history m).0
            follows)
    next_state_lands raw p follows has (change base mb from le decodes) =
        next_state_of ops c l.client f raw (ops.diff_from s base) s p (decodes raw p)
          (elim (named_base base mb from le) [
            | inl named ↦ change_applies base _ mb from named
            | inr (_, missing) ↦
                let above = (history_legal laws authored inv.history mb).1 in
                let (x, mx, is) = has (λ e. absurd (omega arith)) in absurd (missing x mx is)
          ])
          (laws.transition_ok s l.client.ring.newest (history_legal laws authored inv.history m).0
            follows)
