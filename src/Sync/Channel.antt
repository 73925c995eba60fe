-- ===== src/Sync/Channel.antt =====
-- crates/oxutrm-sync/src/channel.rs: the two ends of one replicated value.
pub mod Payload
pub mod Sending
pub mod Receiving
pub mod Promise
pub mod Bounds
use oxutrm.Base.{
  ℕ, ◌+◌, ◌*◌, max, min, bit_and, Bool, true, false, not, ◌&&◌, ◌==◌, List, [], ◌∷◌, ◌++◌, Option,
  none, some, ltb, leb, length, find, if◌then◌else◌, Result, ok, err, ◌>>=◌, ◌>>◌, ◌≡◌, take,
}
use oxutrm.Proto.Types.{ApplyError, decode, encoding_diff, decoding_diff, zstd, expands_beyond}
use oxutrm.Proto.Frame.{Bytes, Frame, flag_zstd}
use oxutrm.Sync.State.{SyncState, state_ring}

abbrev pub max_decompressed : ℕ
max_decompressed = 64 * 1024 * 1024

abbrev pub u64_max : ℕ
u64_max = 0xffff_ffff_ffff_ffff

-- `u64::saturating_add(1)`.
abbrev pub saturating_suc : ℕ → ℕ
saturating_suc n = min (n + 1) u64_max

-- postcard at the diff, and zstd: `zstd_read payload n` is the first n bytes that the streaming
-- decoder gives for the payload.
pub record Codec (D : Type 0) : Type 0 where
  pub to_stdvec : D → Option Bytes
  pub from_bytes : Bytes → Option D
  pub compress : Bytes → Bytes
  pub zstd_read : Bytes → ℕ → Option Bytes

-- What both crates document of their round trips.
pub record CodecLaws {D : Type 0} (c : Codec D) : Type 0 where
  pub from_bytes-to_stdvec :
      (d : D) (raw : Bytes) → c.to_stdvec d ≡ some raw → c.from_bytes raw ≡ some d
  pub zstd_read-compress :
      (raw : Bytes) (n : ℕ) → c.zstd_read (c.compress raw) n ≡ some (take n raw)

-- A `VecDeque` that is never empty between two calls, oldest first: its back is `newest`, so the
-- `expect` of `current` and of `state` cannot fail.
pub record Ring (S : Type 0) : Type 0 where
  pub older : List S
  pub newest : S

abbrev pub entries : {S : Type 0} → Ring S → List S
entries r = r.older ++ r.newest ∷ []

-- `while len > cap { pop_front }`, where the back is never popped.
unfoldable pub trim : {S : Type 0} → ℕ → List S → S → Ring S
trim cap [] newest = record { older = []; newest = newest }
trim cap (x ∷ older) newest =
    if ltb cap (length (x ∷ older) + 1)
    then trim cap older newest
    else record { older = x ∷ older; newest = newest }

pub record Sender (S : Type 0) : Type 0 where
  pub ring : Ring S
  pub peer_saw : ℕ
  pub last_ack_sent : ℕ

pub record Receiver (S : Type 0) : Type 0 where
  pub ring : Ring S
  pub peer_ack : ℕ
  pub applied_any : Bool
  pub diffs_applied : ℕ
  pub full_states_applied : ℕ

-- `decompress`: one byte more than the limit is read, to see that the limit is passed.
unfoldable pub decompress : {D : Type 0} → Codec D → Bytes → Result ApplyError Bytes
decompress c payload = elim (c.zstd_read payload (max_decompressed + 1)) [
  | none ↦ err (decode zstd)
  | some out ↦ if ltb max_decompressed (length out) then err (decode expands_beyond) else ok out
]

unfoldable pub payload_bytes : {D : Type 0} → Codec D → Frame → Result ApplyError Bytes
payload_bytes c f = if bit_and f.flags flag_zstd == 0 then ok f.payload else decompress c f.payload

-- Whichever of the two is shorter, with its flag.
unfoldable pub pack : {D : Type 0} → Codec D → Bytes → Bytes × ℕ
pack c raw =
    if ltb (length (c.compress raw)) (length raw) then (c.compress raw, flag_zstd) else (raw, 0)

module _ {S D : Type 0} (ops : SyncState S D) (c : Codec D) where
  open ops use {seq}

  unfoldable pub new_sender : S → Sender S
  new_sender initial = record {
    ring = record { older = []; newest = initial };
    peer_saw = 0;
    last_ack_sent = 0;
  }

  -- `Sender::update`.
  unfoldable pub update : S → Sender S → Sender S
  update next s = record s {
    ring = trim state_ring (entries s.ring) (ops.set_seq (saturating_suc (seq s.ring.newest)) next);
  }

  unfoldable pub on_ack : ℕ → Sender S → Sender S
  on_ack peer_saw s = record s { peer_saw = max s.peer_saw peer_saw }

  abbrev pub has_seq : ℕ → S → Bool
  has_seq n x = seq x == n

  -- `Sender::acked`.
  unfoldable pub acked : Sender S → Option S
  acked s = if s.peer_saw == 0 then none else find (has_seq s.peer_saw) (entries s.ring)

  -- The diff that `make_frame` sends, and its base.
  unfoldable pub outgoing : Sender S → D × ℕ
  outgoing s = elim (find (has_seq s.peer_saw) (entries s.ring)) [
    | some base ↦ (ops.diff_from s.ring.newest base, seq base)
    | none ↦ (ops.full_diff s.ring.newest, 0)
  ]

  unfoldable pub frame_of : Sender S → ℕ → ℕ → Bytes → Frame
  frame_of s from_state ack_state raw =
      let (payload, flags) = pack c raw in
      record {
        my_state = seq s.ring.newest;
        from_state = from_state;
        ack_state = ack_state;
        flags = flags;
        payload = payload;
      }

  unfoldable pub make_frame : ℕ → Sender S → Sender S × Result ApplyError (Option Frame)
  make_frame ack_state s =
      if s.peer_saw == seq s.ring.newest && not (ltb s.last_ack_sent ack_state)
      then (s, ok none)
      else let (diff, from_state) = outgoing s in
        elim (c.to_stdvec diff) [
          | none ↦ (s, err (decode encoding_diff))
          | some raw ↦ (
            record s { last_ack_sent = ack_state },
            ok (some (frame_of s from_state ack_state raw)),
          )
        ]

  unfoldable pub new_receiver : S → Receiver S
  new_receiver initial = record {
    ring = record { older = []; newest = initial };
    peer_ack = 0;
    applied_any = false;
    diffs_applied = 0;
    full_states_applied = 0;
  }

  unfoldable pub ack : Receiver S → ℕ
  ack r = if r.applied_any then seq r.ring.newest else 0

  unfoldable pub is_stale : Receiver S → Frame → Bool
  is_stale r f =
      if f.from_state == 0 && not r.applied_any
      then ltb f.my_state (seq r.ring.newest)
      else leb f.my_state (seq r.ring.newest)

  -- The state that a frame's diff is applied to.
  unfoldable pub base_for : Receiver S → ℕ → S
  base_for r from_state = elim (find (has_seq from_state) (entries r.ring)) [
    | some base ↦ if from_state == 0 then r.ring.newest else base
    | none ↦ r.ring.newest
  ]

  -- The fallible middle of `on_frame`: the state that the frame leads to, checked.
  unfoldable pub next_state : Receiver S → Frame → Result ApplyError S
  next_state r f = do
    payload ← payload_bytes c f
    diff ← elim (c.from_bytes payload) [ none ↦ err (decode decoding_diff) | some d ↦ ok d ]
    next ← ops.apply (base_for r f.from_state) f.from_state f.my_state diff
    ops.validate_transition next r.ring.newest
    ok next

  -- `while front.seq < from_state { pop_front }`.
  unfoldable pub prune : ℕ → List S → List S
  prune from_state [] = []
  prune from_state (x ∷ xs) = if ltb (seq x) from_state then prune from_state xs else x ∷ xs

  -- What `on_frame` keeps of the ring before it pushes the new state.
  unfoldable pub kept : Receiver S → ℕ → List S
  kept r from_state = prune from_state (if r.applied_any then entries r.ring else [])

  -- The end of `on_frame`, where the new state is committed.
  unfoldable pub commit : Receiver S → ℕ → S → Receiver S
  commit r from_state next = record r {
    ring = trim (state_ring + 1) (kept r from_state) next;
    applied_any = true;
    diffs_applied = if from_state == 0 then r.diffs_applied else saturating_suc r.diffs_applied;
    full_states_applied =
        if from_state == 0 then saturating_suc r.full_states_applied else r.full_states_applied;
  }

  abbrev pub hear_ack : Receiver S → Frame → Receiver S
  hear_ack r f = record r { peer_ack = max r.peer_ack f.ack_state }

  unfoldable pub on_frame : Receiver S → Frame → Receiver S × Result ApplyError Bool
  on_frame r f =
      let heard = hear_ack r f in
      if is_stale r f then (heard, ok false) else elim (next_state r f) [
        | err e ↦ (heard, err e)
        | ok next ↦ (commit heard f.from_state next, ok true)
      ]
