-- ===== src/Examples/Typing.antt =====
-- A user types two keys at a link that loses nothing: the input queue as the replicated value.
use mathlib.Core.List.{Memᴰ}
use oxutrm.Base.{
  ◌+◌, zero, suc, ◌≤◌, ◌<◌, max, ◌≡◌, ◌≢◌, ◌⊎◌, refl, ap, ◌∙◌, true, false, [], ◌∷◌, ◌++◌, Option,
  none, some, take, ok, arith, length,
}
use oxutrm.Proto.Types.{TermSize}
use oxutrm.Proto.Frame.{Bytes, Frame}
use oxutrm.Sync.State.{state_ring}
use oxutrm.Sync.Channel.{
  u64_max, Codec, CodecLaws, entries, new_sender, new_receiver, update, make_frame, ack, on_frame,
  outgoing, payload_bytes, pack, frame_of, trim,
}
use oxutrm.Sync.Channel.Payload.{payload_bytes-pack}
use oxutrm.Sync.Channel.Promise.{on_frame_promise}
use oxutrm.Sync.Channel.Bounds.{rings_bounded}
use oxutrm.Sync.Link.{Link, output, send, deliver, Reach, here, next, start, on_wire, numbered}
use oxutrm.Sync.Link.Landing.{exchange}
use oxutrm.Sync.Link.Converge.{exchange_converges, client_shows_authored}
use oxutrm.Sync.Input.{InputState, InputDiff, input_ops, diff_from, full_diff, apply}
use oxutrm.Sync.Input.Contract.{IsInput, input_lawful}
use oxutrm.Sync.Input.RoundTrip.{input_diff_round_trip}

-- A plain encoding of the diff.
abbrev size_bytes : Option TermSize → Bytes
size_bytes none = 0 ∷ []
size_bytes (some size) = 1 ∷ size.cols ∷ size.rows ∷ []

abbrev plain_bytes : InputDiff → Bytes
plain_bytes d = d.consumed ∷ (size_bytes d.size ++ d.appended)

abbrev read_plain : Bytes → Option InputDiff
read_plain (n ∷ zero ∷ rest) = some (record { consumed = n; appended = rest; size = none })
read_plain (n ∷ suc k ∷ cols ∷ rows ∷ rest) =
    some
      (record { consumed = n; appended = rest; size = some (record { cols = cols; rows = rows }) })
read_plain _ = none

abbrev plain : Codec InputDiff
plain = record {
  to_stdvec = λ d. some (plain_bytes d);
  from_bytes = read_plain;
  compress = λ raw. raw;
  zstd_read = λ payload n. some (take n payload);
}

read_plain_lem : (d : InputDiff) → read_plain (plain_bytes d) ≡ some d
read_plain_lem d = go d.size
  where
    go :
        (o : Option TermSize)
        → read_plain (d.consumed ∷ (size_bytes o ++ d.appended)) ≡ some (record d { size = o })
    go none = refl
    go (some size) = refl

plain_laws : CodecLaws plain
plain_laws = record {
  from_bytes-to_stdvec =
      λ d raw h. ap read_plain (let e : raw ≡ plain_bytes d = cc in e) ∙ read_plain_lem d;
  zstd_read-compress = λ raw n. refl;
}

abbrev terminal : TermSize
terminal = record { cols = 80; rows = 24 }

abbrev empty_queue : InputState
empty_queue = record { seq = 1; pending = []; size = terminal }

abbrev keys : InputState
keys = record { seq = 1; pending = 0x6c ∷ 0x73 ∷ []; size = terminal }

abbrev at_start : Link InputState
at_start = start input_ops plain input_lawful empty_queue empty_queue

-- The two keys are in the queue.
abbrev typed : Link InputState
typed = record at_start {
  host = update input_ops plain keys at_start.host;
  authored = numbered input_ops plain input_lawful keys at_start.host ∷ at_start.authored;
}

-- The frame that carries them.
abbrev first_frame : Frame
first_frame = record {
  my_state = 2;
  from_state = 0;
  ack_state = 0;
  flags = 0;
  payload = u64_max ∷ 1 ∷ 80 ∷ 24 ∷ 0x6c ∷ 0x73 ∷ [];
}

abbrev sent_once : Link InputState
sent_once = record typed {
  host = (make_frame input_ops plain 0 typed.host).0;
  sent = on_wire (make_frame input_ops plain 0 typed.host).1 typed.sent;
}

abbrev delivered : Link InputState
delivered = record sent_once { client = (on_frame input_ops plain sent_once.client first_frame).0 }

empty_legal : IsInput empty_queue
empty_legal = record { numbered = omega arith; fits = omega arith }

keys_legal : IsInput keys
keys_legal = record { numbered = omega arith; fits = omega arith }

Reach-typed : Reach input_ops plain input_lawful at_start typed
unfolding input_lawful input_ops update trim new_sender
Reach-typed =
    next here (output keys (record { numbered = omega arith; fits = omega arith }) tt (omega arith))

Reach-delivered : Reach input_ops plain input_lawful at_start delivered
unfolding input_lawful input_ops update trim new_sender make_frame outgoing frame_of full_diff pack
Reach-delivered = next (next Reach-typed (send 0)) (deliver first_frame (Memᴰ.head refl))

exchange_converges_example :
    (exchange input_ops plain 0 typed).ring.newest
    ≡ record { seq = 2; pending = 0x6c ∷ 0x73 ∷ []; size = terminal }
unfolding input_lawful input_ops update trim outgoing full_diff new_sender
exchange_converges_example =
    exchange_converges plain plain_laws input_lawful empty_queue empty_queue refl empty_legal
      empty_legal tt 0 first_frame.payload refl Reach-typed refl (omega arith)

client_shows_authored_example :
    ((delivered.client.applied_any ≡ false)
      × (delivered.client.ring.newest ≡ empty_queue)
      × (ack input_ops plain delivered.client ≡ 0))
    ⊎ (Memᴰ delivered.client.ring.newest delivered.authored
        × (ack input_ops plain delivered.client ≡ input_ops.seq delivered.client.ring.newest)
        × (input_ops.seq delivered.client.ring.newest ≤ input_ops.seq delivered.host.ring.newest))
unfolding input_lawful
client_shows_authored_example =
    client_shows_authored plain plain_laws input_lawful empty_queue empty_queue refl empty_legal
      empty_legal tt Reach-delivered

on_frame_promise_example :
    (((on_frame input_ops plain typed.client first_frame).1 ≡ ok true)
      × (ack input_ops plain (on_frame input_ops plain typed.client first_frame).0 ≡ 2)
      × ((input_ops.seq typed.client.ring.newest < 2)
          ⊎ ((input_ops.seq typed.client.ring.newest ≡ 2)
              × (first_frame.from_state ≡ 0)
              × (typed.client.applied_any ≡ false))))
    ⊎ (((on_frame input_ops plain typed.client first_frame).1 ≢ ok true)
        × ((on_frame input_ops plain typed.client first_frame).0
            ≡ record typed.client { peer_ack = max typed.client.peer_ack 0 })
        × (ack input_ops plain (on_frame input_ops plain typed.client first_frame).0
            ≡ ack input_ops plain typed.client))
on_frame_promise_example = on_frame_promise input_ops plain input_lawful typed.client first_frame

rings_bounded_example :
    (length (entries (update input_ops plain keys typed.host).ring) ≤ state_ring)
    × ((update input_ops plain keys typed.host).ring.newest ≡ record keys { seq = 3 })
    × Memᴰ typed.host.ring.newest (update input_ops plain keys typed.host).ring.older
    × (length (entries (on_frame input_ops plain typed.client first_frame).0.ring) ≤ state_ring + 1)
unfolding input_ops update trim new_sender new_receiver
rings_bounded_example =
    rings_bounded input_ops plain typed.host keys typed.client first_frame (omega arith)

payload_bytes-pack_example :
    (payload_bytes plain first_frame ≡ ok first_frame.payload)
    × (length first_frame.payload ≤ length first_frame.payload)
unfolding pack
payload_bytes-pack_example =
    payload_bytes-pack plain plain_laws first_frame first_frame.payload refl (omega arith)

-- The host has handed the first byte on, and the user has typed one more.
abbrev later_keys : InputState
later_keys = record { seq = 2; pending = 0x73 ∷ 0x0d ∷ []; size = terminal }

-- The diff that sends the whole queue again.
abbrev wasteful : InputDiff
wasteful = record { consumed = 2; appended = 0x73 ∷ 0x0d ∷ []; size = none }

input_diff_round_trip_example :
    (apply keys 1 2 (diff_from later_keys keys) ≡ ok later_keys)
    × (apply empty_queue 0 2 (full_diff later_keys) ≡ ok later_keys)
    × (length (diff_from later_keys keys).appended ≤ 2)
unfolding apply
input_diff_round_trip_example =
    input_diff_round_trip later_keys keys empty_queue wasteful keys_legal empty_legal refl
