-- ===== src/Sync/Channel/Sending.antt =====
-- What `make_frame` and `update` do to a sender.
use mathlib.Core.List.{Memᴰ}
use oxutrm.Base.{ℕ, ◌≤◌, ◌≡◌, refl, ◌⊎◌, inl, inr, none, some, ok, arith, Option-cases, find, ==→eq}
use oxutrm.Proto.Frame.{Bytes, Frame}
use oxutrm.Sync.State.{SyncState}
use oxutrm.Sync.Channel.{Codec, Sender, entries, pack, has_seq, make_frame, outgoing, frame_of}
use oxutrm.Sync.Link.Rings.{find-some}

module _ {S D : Type 0} (ops : SyncState S D) (c : Codec D) where
  -- A frame that is made carries the sender's diff, written out.
  pub make_frame_sent :
      (a : ℕ) (s : Sender S) {f : Frame}
      → (make_frame ops c a s).1 ≡ ok (some f)
      → (raw : Bytes) × (c.to_stdvec (outgoing ops c s).0 ≡ some raw)
        × (f ≡ frame_of ops c s (outgoing ops c s).1 a raw)
  unfolding make_frame
  make_frame_sent a s h = ground arith

  pub make_frame_cases :
      (a : ℕ) (s : Sender S) (raw : Bytes)
      → c.to_stdvec (outgoing ops c s).0 ≡ some raw
      → ((make_frame ops c a s).1 ≡ ok none)
        ⊎ ((make_frame ops c a s).1 ≡ ok (some (frame_of ops c s (outgoing ops c s).1 a raw)))
  unfolding make_frame
  make_frame_cases a s raw e = ground arith

  -- No frame is made only where the peer has acknowledged the current state and hears no new
  -- acknowledgement.
  pub make_frame_silent :
      (a : ℕ) (s : Sender S)
      → (make_frame ops c a s).1 ≡ ok none
      → (s.peer_saw ≡ ops.seq s.ring.newest) × (a ≤ s.last_ack_sent)
  unfolding make_frame
  make_frame_silent a s h = ground arith

  -- Making a frame changes the sender in the acknowledgement that it has sent, and nowhere else.
  pub make_frame_keeps :
      (a : ℕ) (s : Sender S)
      → (make_frame ops c a s).0
        ≡ record s { last_ack_sent = (make_frame ops c a s).0.last_ack_sent }
  unfolding make_frame
  make_frame_keeps a s = ground arith

  -- The base is the acknowledged state while the ring holds it, and otherwise there is none.
  pub outgoing_cases :
      (s : Sender S)
      → (outgoing ops c s ≡ (ops.full_diff s.ring.newest, 0))
        ⊎ ((base : S) × Memᴰ base (entries s.ring)
            × (ops.seq base ≡ s.peer_saw)
            × (outgoing ops c s ≡ (ops.diff_from s.ring.newest base, ops.seq base)))
  unfolding outgoing
  outgoing_cases s = elim (Option-cases (find (has_seq ops c s.peer_saw) (entries s.ring))) [
    | inl e ↦ inl (rw (e, outgoing) refl)
    | inr (base, e) ↦
        let (m, t) = find-some (has_seq ops c s.peer_saw) (entries s.ring) e in
        inr (base, m, ==→eq _ _ t, rw (e, outgoing) refl)
  ]

  pub frame_of_packed :
      (s : Sender S) (from a : ℕ) (raw : Bytes)
      → ((frame_of ops c s from a raw).payload, (frame_of ops c s from a raw).flags) ≡ pack c raw
  unfolding frame_of
  frame_of_packed s from a raw = refl
