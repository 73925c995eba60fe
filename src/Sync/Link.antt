-- ===== src/Sync/Link.antt =====
-- A sender and a receiver of crates/oxutrm-sync/src/channel.rs joined by an unreliable network: a
-- frame that was sent, and an acknowledgement that was issued, may arrive at any later time, in any
-- order, any number of times or never.
pub mod Rings
pub mod Authored
pub mod Invariant
pub mod Steps
pub mod Delivery
pub mod Commit
pub mod Landing
pub mod Converge
use mathlib.Core.List.{Memᴰ}
use oxutrm.Base.{ℕ, ◌<◌, ◌≡◌, List, [], ◌∷◌, Option, none, some, Result, ok, err}
use oxutrm.Proto.Types.{ApplyError}
use oxutrm.Proto.Frame.{Frame}
use oxutrm.Sync.State.{SyncState, Lawful}
use oxutrm.Sync.Channel.{
  Codec, Sender, Receiver, u64_max, saturating_suc, new_sender, new_receiver, update, on_ack,
  make_frame, ack, on_frame,
}

-- The two ends, every state that the host ever held (the latest first), every frame on the wire
-- and every acknowledgement that the client ever issued.
pub record Link (S : Type 0) : Type 0 where
  pub host : Sender S
  pub client : Receiver S
  pub authored : List S
  pub sent : List Frame
  pub acks : List ℕ

-- What a call of `make_frame` puts on the wire.
abbrev pub on_wire : Result ApplyError (Option Frame) → List Frame → List Frame
on_wire (ok (some f)) sent = f ∷ sent
on_wire (ok none) sent = sent
on_wire (err _) sent = sent

module _ {S D : Type 0} (ops : SyncState S D) (c : Codec D) (laws : Lawful ops) where
  open laws use {Legal, Follows}

  -- The state that `update` numbers.
  abbrev pub numbered : S → Sender S → S
  numbered next s = ops.set_seq (saturating_suc (ops.seq s.ring.newest)) next

  pub data Step (l : Link S) : Link S → Type 0 where
    output :
        (next : S)
        → Legal (numbered next l.host)
        → Follows (numbered next l.host) l.host.ring.newest
        → ops.seq l.host.ring.newest < u64_max
        → Step l (record l {
          host = update ops c next l.host;
          authored = numbered next l.host ∷ l.authored;
        })
    send :
        (ack_state : ℕ)
        → Step l (record l {
          host = (make_frame ops c ack_state l.host).0;
          sent = on_wire (make_frame ops c ack_state l.host).1 l.sent;
        })
    deliver :
        (f : Frame) → Memᴰ f l.sent → Step l (record l { client = (on_frame ops c l.client f).0 })
    issue : Step l (record l { acks = ack ops c l.client ∷ l.acks })
    hear : (n : ℕ) → Memᴰ n l.acks → Step l (record l { host = on_ack ops c n l.host })

  pub data Reach (l : Link S) : Link S → Type 0 where
    here : Reach l l
    next : {m n : Link S} → Reach l m → Step m n → Reach l n

  -- Both ends at their start: the host holds its first state, the client one that it made up.
  abbrev pub start : S → S → Link S
  start initial local = record {
    host = new_sender ops c initial;
    client = new_receiver ops c local;
    authored = initial ∷ [];
    sent = [];
    acks = [];
  }
