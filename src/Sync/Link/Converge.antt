-- ===== src/Sync/Link/Converge.antt =====
-- What the sync layer promises over any history of a link.
use mathlib.Core.List.{Memᴰ}
use oxutrm.Base.{ℕ, ◌≤◌, ◌≡◌, ap, inl, inr, false, some, arith, length, ◌⊎◌}
use oxutrm.Proto.Frame.{Bytes}
use oxutrm.Sync.State.{SyncState, Lawful}
use oxutrm.Sync.Channel.{Codec, CodecLaws, Ring, entries, ack, outgoing, max_decompressed}
use oxutrm.Sync.Link.Rings.{All-mem, mem_last}
use oxutrm.Sync.Link.Authored.{history_le}
use oxutrm.Sync.Link.Invariant.{IsClientOf, fresh, fed, Inv}
use oxutrm.Sync.Link.Steps.{start-Inv, output-Inv, issue-Inv, hear-Inv, send-Inv}
use oxutrm.Sync.Link.Commit.{deliver-Inv}
use oxutrm.Sync.Link.{Link, Step, output, send, deliver, issue, hear, Reach, here, next, start}
use oxutrm.Sync.Link.Landing.{exchange, exchange_lands}

module _ {S D : Type 0} {ops : SyncState S D} (c : Codec D) (codec : CodecLaws c)
    (laws : Lawful ops) (local initial : S) where
  open ops use {seq}
  open laws use {Legal, Follows}

  Step-Inv : {l m : Link S} → Step ops c laws l m → Inv c laws local l → Inv c laws local m
  Step-Inv {l} (output s legal follows room) inv =
      output-Inv c laws local l inv s legal follows room
  Step-Inv {l} (send a) inv = send-Inv c codec laws local l inv a
  Step-Inv {l} (deliver f m) inv = deliver-Inv c laws local l inv f m
  Step-Inv {l} issue inv = issue-Inv c laws local l inv
  Step-Inv {l} (hear n m) inv = hear-Inv c laws local l inv n m

  module _ (one : seq initial ≡ 1) (legal : Legal initial) (local_legal : Legal local)
      (follows : Follows initial local) where
    Reach-Inv :
        {l : Link S} → Reach ops c laws (start ops c laws initial local) l → Inv c laws local l
    Reach-Inv here = start-Inv c laws local initial one legal local_legal follows
    Reach-Inv (next r s) = Step-Inv s (Reach-Inv r)

    -- In every reachable link: before the first frame is applied the client shows the state it made up
    -- and acknowledges nothing; from then on it shows a state that the host authored, whole, and the
    -- number that it acknowledges is that state's, which the host has reached. The conditions: zstd and
    -- postcard round-trip, the value is lawful, both first states are legal, the host's may follow the
    -- client's, and the host's is numbered 1.
    pub client_shows_authored :
        {l : Link S}
        → Reach ops c laws (start ops c laws initial local) l
        → ((l.client.applied_any ≡ false)
            × (l.client.ring.newest ≡ local)
            × (ack ops c l.client ≡ 0))
          ⊎ (Memᴰ l.client.ring.newest l.authored
              × (ack ops c l.client ≡ seq l.client.ring.newest)
              × (seq l.client.ring.newest ≤ seq l.host.ring.newest))
    unfolding ack
    client_shows_authored {l} r = shown (Reach-Inv r) (Reach-Inv r).client
      where
        shown :
            Inv c laws local l
            → IsClientOf c laws l.authored local l.client
            → ((l.client.applied_any ≡ false)
                × (l.client.ring.newest ≡ local)
                × (ack ops c l.client ≡ 0))
              ⊎ (Memᴰ l.client.ring.newest l.authored
                  × (ack ops c l.client ≡ seq l.client.ring.newest)
                  × (seq l.client.ring.newest ≤ seq l.host.ring.newest))
        shown inv (fresh a e) = inl (a, ap (λ (r : Ring S). r.newest) e, ground arith)
        shown inv (fed a known o) =
            let m = All-mem _ (entries l.client.ring) known (mem_last l.client.ring.older _) in
            inr (m, ground arith, history_le laws l.authored inv.history inv.latest m)

    -- From every reachable link, whatever was lost, repeated or reordered before, one frame that is made
    -- now and delivered leaves the client with the host's current state; where `make_frame` has nothing
    -- to send, the client has it already. The conditions: zstd and postcard round-trip, the value is
    -- lawful, both first states are legal and numbered 1, the host's may follow the client's, and the
    -- diff to be sent encodes to at most 64 MiB.
    pub exchange_converges :
        {l : Link S} (a : ℕ) (raw : Bytes)
        → seq local ≡ 1
        → Reach ops c laws (start ops c laws initial local) l
        → c.to_stdvec (outgoing ops c l.host).0 ≡ some raw
        → length raw ≤ max_decompressed
        → (exchange ops c a l).ring.newest ≡ l.host.ring.newest
    exchange_converges {l} a raw start_one r e fits =
        exchange_lands c codec laws local l (Reach-Inv r) start_one a raw e fits
