-- ===== src/Sync/Link/Invariant.antt =====
-- What holds of a link at every moment, and the steps that do not deliver a frame.
use mathlib.Core.List.{Memᴰ}
use oxutrm.Base.{ℕ, ◌+◌, ◌≤◌, ◌<◌, ◌≡◌, true, false, List, [], ◌∷◌, some, ok, All, arith}
use oxutrm.Proto.Frame.{Bytes, Frame}
use oxutrm.Sync.State.{SyncState, Lawful, state_ring}
use oxutrm.Sync.Channel.{Codec, Receiver, entries, payload_bytes}
use oxutrm.Sync.Link.Rings.{All-map, IsRun, Rising, Held}
use oxutrm.Sync.Link.Authored.{IsHistory, Latest}
use oxutrm.Sync.Link.{Link}

module _ {S D : Type 0} {ops : SyncState S D} (c : Codec D) (laws : Lawful ops) where
  open ops use {seq}
  open laws use {Legal, Follows}

  -- A frame's payload, if it can be read, decodes to the diff.
  abbrev pub Decodes : Frame → D → Type 0
  Decodes f d = (raw : Bytes) → payload_bytes c f ≡ ok raw → c.from_bytes raw ≡ some d

  -- A frame leads to an authored state: from nothing, or from an authored state that the peer has
  -- acknowledged.
  pub data Carries (authored : List S) (peer_saw : ℕ) (f : Frame) (s : S) : Type 0 where
    whole : f.from_state ≡ 0 → Decodes f (ops.full_diff s) → Carries authored peer_saw f s
    change :
        (base : S)
        → Memᴰ base authored
        → seq base ≡ f.from_state
        → f.from_state ≤ peer_saw
        → Decodes f (ops.diff_from s base)
        → Carries authored peer_saw f s

  abbrev pub IsFrameOf : List S → ℕ → Frame → Type 0
  IsFrameOf authored peer_saw f =
      (s : S) × Memᴰ s authored × (seq s ≡ f.my_state) × Carries authored peer_saw f s

  -- The client still has the state that it acknowledged, while the host can name it as a base.
  pub data IsAckOf (peer_saw current : ℕ) (r : Receiver S) (n : ℕ) : Type 0 where
    nothing_yet : n ≡ 0 → IsAckOf peer_saw current r n
    promised :
        r.applied_any ≡ true
        → n ≤ seq r.ring.newest
        → (peer_saw ≤ n → current < n + state_ring → Held seq n (entries r.ring))
        → IsAckOf peer_saw current r n

  -- The client holds its own first state, or states of the host in rising order.
  pub data IsClientOf (authored : List S) (local : S) (r : Receiver S) : Type 0 where
    fresh :
        r.applied_any ≡ false
        → r.ring ≡ record { older = []; newest = local }
        → IsClientOf authored local r
    fed :
        r.applied_any ≡ true
        → All (λ x. Memᴰ x authored) (entries r.ring)
        → Rising seq 0 r.ring.older r.ring.newest
        → IsClientOf authored local r

  pub record Inv (local : S) (l : Link S) : Type 0 where
    pub local_legal : Legal local
    pub history : IsHistory laws l.authored
    pub latest : Latest laws l.authored l.host.ring.newest
    pub from_local : All (λ s. Follows s local) l.authored
    pub held : All (λ x. Memᴰ x l.authored) (entries l.host.ring)
    pub run : IsRun seq (entries l.host.ring)
    pub window : All (λ x. seq l.host.ring.newest < seq x + state_ring) (entries l.host.ring)
    pub client : IsClientOf l.authored local l.client
    pub frames : All (IsFrameOf l.authored l.host.peer_saw) l.sent
    pub promises :
        All (IsAckOf l.host.peer_saw (seq l.host.ring.newest) l.client) (l.host.peer_saw ∷ l.acks)

  -- What grows with the history.
  pub Carries-grow :
      (x : S) (authored : List S) (p q : ℕ) (f : Frame) {s : S}
      → p ≤ q
      → Carries authored p f s
      → Carries (x ∷ authored) q f s
  Carries-grow x authored p q f h (whole e d) = whole e d
  Carries-grow x authored p q f h (change b m e l d) = change b (Memᴰ.tail m) e (omega arith) d

  pub IsFrameOf-grow :
      (x : S) (authored : List S) (p : ℕ) (f : Frame)
      → IsFrameOf authored p f
      → IsFrameOf (x ∷ authored) p f
  IsFrameOf-grow x authored p f (s, m, e, k) =
      (s, Memᴰ.tail m, e, Carries-grow x authored p p f (omega arith) k)

  pub Carries-heard :
      (authored : List S) (p q : ℕ) (f : Frame) {s : S}
      → p ≤ q
      → Carries authored p f s
      → Carries authored q f s
  Carries-heard authored p q f h (whole e d) = whole e d
  Carries-heard authored p q f h (change b m e l d) = change b m e (omega arith) d

  pub IsAckOf-later :
      (p q k k' : ℕ) (r : Receiver S) (n : ℕ) → p ≤ q → k ≤ k' → IsAckOf p k r n → IsAckOf q k' r n
  IsAckOf-later p q k k' r n h j (nothing_yet e) = nothing_yet e
  IsAckOf-later p q k k' r n h j (promised a l keep) =
      promised a l (λ x y. keep (omega arith) (omega arith))

  pub IsClientOf-grow :
      (x : S) (authored : List S) (local : S) (r : Receiver S)
      → IsClientOf authored local r
      → IsClientOf (x ∷ authored) local r
  IsClientOf-grow x authored local r (fresh a e) = fresh a e
  IsClientOf-grow x authored local r (fed a m o) =
      fed a (All-map (entries r.ring) (λ y n. Memᴰ.tail n) m) o
