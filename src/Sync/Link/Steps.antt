-- ===== src/Sync/Link/Steps.antt =====
-- The steps of a link that deliver no frame keep its invariant.
use mathlib.Core.List.{Memᴰ}
use oxutrm.Base.{
  ℕ, suc, ◌+◌, ◌<◌, max, ◌≡◌, refl, sym, ap, subst, ◌∙◌, inl, inr, List, ◌∷◌, Option, none, some,
  Result, ok, err, All, arith, Bool-cases, dec_le,
}
use oxutrm.Proto.Types.{ApplyError}
use oxutrm.Proto.Frame.{Bytes, Frame}
use oxutrm.Sync.State.{SyncState, Lawful, state_ring}
use oxutrm.Sync.Channel.{
  Codec, CodecLaws, entries, trim, u64_max, saturating_suc, new_sender, new_receiver, update,
  on_ack, outgoing, frame_of, make_frame, ack,
}
use oxutrm.Sync.Channel.Payload.{payload_bytes-pack_only}
use oxutrm.Sync.Channel.Sending.{make_frame_sent, make_frame_keeps, outgoing_cases, frame_of_packed}
use oxutrm.Sync.Link.Rings.{
  All-mem, All-map, All-trim, IsRun-trim, within-trim, Consecutive-push, newest-trim, mem_last,
}
use oxutrm.Sync.Link.Authored.{Latest-mem, IsHistory-push}
use oxutrm.Sync.Link.Invariant.{
  Decodes, Carries, whole, change, IsFrameOf, IsAckOf, nothing_yet, promised, fresh, Inv,
  IsFrameOf-grow, Carries-heard, IsAckOf-later, IsClientOf-grow,
}
use oxutrm.Sync.Link.{Link, on_wire, numbered, start}

module _ {S D : Type 0} {ops : SyncState S D} (c : Codec D) (laws : Lawful ops) (local : S) where
  open ops use {seq}
  open laws use {Legal, Follows}

  pub start-Inv :
      (initial : S)
      → seq initial ≡ 1
      → Legal initial
      → Legal local
      → Follows initial local
      → Inv c laws local (start ops c laws initial local)
  unfolding new_sender new_receiver
  start-Inv initial one legal local_legal follows = record {
    local_legal = local_legal;
    history = (legal, omega arith, tt, tt);
    latest = refl;
    from_local = (follows, tt);
    held = (Memᴰ.head refl, tt);
    run = (seq initial, (refl, tt));
    window = (omega arith, tt);
    client = fresh refl refl;
    frames = tt;
    promises = (nothing_yet refl, tt);
  }

  module _ (l : Link S) (inv : Inv c laws local l) where
    open l use {host, authored}

    pub output-Inv :
        (next : S)
        → Legal (numbered ops c laws next host)
        → Follows (numbered ops c laws next host) host.ring.newest
        → seq host.ring.newest < u64_max
        → Inv c laws local (record l {
          host = update ops c next host;
          authored = numbered ops c laws next host ∷ authored;
        })
    unfolding update
    output-Inv next legal follows room =
        let new = numbered ops c laws next host in
        let ring = trim state_ring (entries host.ring) new in
        let count : seq new ≡ suc (seq host.ring.newest) =
          laws.seq-set_seq (saturating_suc (seq host.ring.newest)) next ∙ omega arith in
        let same : ring.newest ≡ new = newest-trim state_ring (entries host.ring) new in
        let run' =
          Consecutive-push seq inv.run.0 host.ring.older host.ring.newest new inv.run.1 count in
        record {
          local_legal = inv.local_legal;
          history =
              IsHistory-push laws authored host.ring.newest new inv.history inv.latest legal follows
                (omega arith);
          latest = sym same;
          from_local = (
            laws.follows_trans new host.ring.newest local follows
                (All-mem _ authored inv.from_local (Latest-mem laws authored inv.latest)),
            inv.from_local,
          );
          held =
              All-trim (λ x. Memᴰ x (new ∷ authored)) state_ring (entries host.ring) new
                (All-map (entries host.ring) (λ x m. Memᴰ.tail m) inv.held) (Memᴰ.head refl);
          run = IsRun-trim seq state_ring inv.run.0 (entries host.ring) new run';
          window =
              subst (λ s. All (λ x. seq s < seq x + state_ring) (entries ring)) (sym same)
                (within-trim seq state_ring inv.run.0 (entries host.ring) new (omega arith) run');
          client = IsClientOf-grow c laws new authored local l.client inv.client;
          frames =
              All-map l.sent (λ f. IsFrameOf-grow c laws new authored host.peer_saw f) inv.frames;
          promises =
              All-map (host.peer_saw ∷ l.acks)
                (λ n.
                  IsAckOf-later c laws host.peer_saw host.peer_saw _ _ l.client n (omega arith)
                    (omega (arith, ap seq same)))
                inv.promises;
        }

    pub issue-Inv : Inv c laws local (record l { acks = ack ops c l.client ∷ l.acks })
    unfolding ack
    issue-Inv = record {
      local_legal = inv.local_legal;
      history = inv.history;
      latest = inv.latest;
      from_local = inv.from_local;
      held = inv.held;
      run = inv.run;
      window = inv.window;
      client = inv.client;
      frames = inv.frames;
      promises = (inv.promises.0, (issued, inv.promises.1));
    }
      where
        issued : IsAckOf c laws host.peer_saw (seq host.ring.newest) l.client (ack ops c l.client)
        issued = elim (Bool-cases l.client.applied_any) [
          | inl e ↦
              let v : ack ops c l.client ≡ seq l.client.ring.newest = rw (e, ack) refl in
              promised e (omega (arith, v)) (λ _ _. (l.client.ring.newest, mem_last _ _, sym v))
          | inr e ↦ nothing_yet (rw (e, ack) refl)
        ]

    pub hear-Inv :
        (n : ℕ) → Memᴰ n l.acks → Inv c laws local (record l { host = on_ack ops c n host })
    unfolding on_ack
    hear-Inv n m = record {
      local_legal = inv.local_legal;
      history = inv.history;
      latest = inv.latest;
      from_local = inv.from_local;
      held = inv.held;
      run = inv.run;
      window = inv.window;
      client = inv.client;
      frames =
          All-map l.sent
            (λ f ok_f. (
              ok_f.0,
              ok_f.1,
              ok_f.2,
              Carries-heard c laws authored host.peer_saw (max host.peer_saw n) f (omega arith)
                  ok_f.3,
            ))
            inv.frames;
      promises = (raised, All-map l.acks later inv.promises.1);
    }
      where
        current : ℕ
        current = seq host.ring.newest

        later :
            (k : ℕ)
            → IsAckOf c laws host.peer_saw current l.client k
            → IsAckOf c laws (max host.peer_saw n) current l.client k
        later k =
            IsAckOf-later c laws host.peer_saw (max host.peer_saw n) current current l.client k
              (omega arith) (omega arith)

        raised : IsAckOf c laws (max host.peer_saw n) current l.client (max host.peer_saw n)
        raised = elim (dec_le n host.peer_saw) [
          | yes low ↦
              let e : max host.peer_saw n ≡ host.peer_saw = omega arith in
              subst (λ k. IsAckOf c laws (max host.peer_saw n) current l.client k) (sym e)
                (later host.peer_saw inv.promises.0)
          | no high ↦
              let e : max host.peer_saw n ≡ n = omega arith in
              subst (λ k. IsAckOf c laws (max host.peer_saw n) current l.client k) (sym e)
                (later n (All-mem _ l.acks inv.promises.1 m))
        ]

All-on_wire {κ} :
    {P : Frame → Type κ} (r : Result ApplyError (Option Frame)) (sent : List Frame)
    → All P sent
    → ((f : Frame) → r ≡ ok (some f) → P f)
    → All P (on_wire r sent)
All-on_wire (ok (some f)) sent h new = (new f refl, h)
All-on_wire (ok none) sent h new = h
All-on_wire (err e) sent h new = h

module _ {S D : Type 0} {ops : SyncState S D} (c : Codec D) (codec : CodecLaws c)
    (laws : Lawful ops) (local : S) (l : Link S) (inv : Inv c laws local l) (a : ℕ) where
  open ops use {seq}
  open l use {host, authored}

  made-Decodes :
      (from : ℕ) (d : D) (raw : Bytes)
      → c.to_stdvec d ≡ some raw
      → Decodes c laws (frame_of ops c host from a raw) d
  made-Decodes from d raw e out read =
      let same =
        payload_bytes-pack_only c codec _ raw (frame_of_packed ops c host from a raw) read in
      subst (λ o. c.from_bytes o ≡ some d) (sym same) (codec.from_bytes-to_stdvec d raw e)

  pub made_carries :
      (raw : Bytes)
      → c.to_stdvec (outgoing ops c host).0 ≡ some raw
      → Carries c laws authored host.peer_saw
          (frame_of ops c host (outgoing ops c host).1 a raw)
          host.ring.newest
  unfolding frame_of
  made_carries raw e = elim (outgoing_cases ops c host) [
    | inl none_held ↦
        whole (ap (λ (o : D × ℕ). o.1) none_held)
          (subst (Decodes c laws _) (ap (λ (o : D × ℕ). o.0) none_held) (made-Decodes _ _ raw e))
    | inr (base, m, at, named) ↦
        let from : (outgoing ops c host).1 ≡ seq base = ap (λ (o : D × ℕ). o.1) named in
        change base (All-mem _ (entries host.ring) inv.held m) (sym from) (omega (arith, from, at))
          (subst (Decodes c laws _) (ap (λ (o : D × ℕ). o.0) named) (made-Decodes _ _ raw e))
  ]

  made_frame :
      (f : Frame)
      → (make_frame ops c a host).1 ≡ ok (some f)
      → IsFrameOf c laws authored host.peer_saw f
  unfolding frame_of
  made_frame f h =
      let (raw, e, is) = make_frame_sent ops c a host h in
      subst (IsFrameOf c laws authored host.peer_saw) (sym is)
        (host.ring.newest, Latest-mem laws authored inv.latest, refl, made_carries raw e)

  pub send-Inv : Inv c laws local (record l {
    host = (make_frame ops c a host).0;
    sent = on_wire (make_frame ops c a host).1 l.sent;
  })
  send-Inv =
      subst (λ h. Inv c laws local (record l { host = h; sent = sent' }))
        (sym (make_frame_keeps ops c a host))
        (record {
          local_legal = inv.local_legal;
          history = inv.history;
          latest = inv.latest;
          from_local = inv.from_local;
          held = inv.held;
          run = inv.run;
          window = inv.window;
          client = inv.client;
          frames = All-on_wire _ l.sent inv.frames made_frame;
          promises = inv.promises;
        })
    where
      sent' : List Frame
      sent' = on_wire (make_frame ops c a host).1 l.sent
