-- ===== src/Program/LinkState.antt =====
-- src/linkstate.rs: whether the host is answering. A time is the nanoseconds since some origin.
pub mod Events
pub mod Outage
pub mod Detection
use oxutrm.Base.{
  ℕ, ◌+◌, ◌-◌, ◌*◌, ◌^◌, min, max, Bool, true, false, ◌&&◌, List, [], ◌∷◌, ◌++◌, Option, none, some,
  leb, length, take, if◌then◌else◌,
}
use oxutrm.Proto.Frame.{Bytes}

-- `Duration::from_secs`.
abbrev pub secs : ℕ → ℕ
secs n = n * 1_000_000_000

abbrev pub default_silent_after : ℕ
default_silent_after = secs 2

abbrev pub default_rebuild_after : ℕ
default_rebuild_after = secs 20

unfoldable pub backoff : ℕ → ℕ
backoff attempt = secs (2 ^ min attempt 3)

abbrev pub heartbeat_idle : ℕ
heartbeat_idle = secs 5

abbrev pub max_held : ℕ
max_held = 64 * 1024

pub data Phase : Type 0 where
  live : Phase
  silent : ℕ → Phase
  recovering : ℕ → ℕ → Phase
  confirming : Phase

unfoldable pub is_outage : Phase → Bool
is_outage live = false
is_outage (silent since) = true
is_outage (recovering attempt next_try) = true
is_outage confirming = false

abbrev pub failover_grace : ℕ
failover_grace = secs 1

pub data ProbeState : Type 0 where
  idle : ProbeState
  pending answered failed : ℕ → ProbeState

unfoldable pub failover_due : Phase → ProbeState → ℕ → Bool
failover_due phase (answered sent) now = is_outage phase && leb failover_grace (now - sent)
failover_due phase idle now = false
failover_due phase (pending sent) now = false
failover_due phase (failed at) now = false

pub record LinkState : Type 0 where
  pub phase : Phase
  pub last_heard : ℕ
  pub owed_since : Option ℕ
  pub last_sent : ℕ
  pub held : Bytes
  pub silent_after : ℕ
  pub rebuild_after : ℕ

unfoldable pub new : ℕ → LinkState
new now = record {
  phase = live;
  last_heard = now;
  owed_since = none;
  last_sent = now;
  held = [];
  silent_after = default_silent_after;
  rebuild_after = default_rebuild_after;
}

unfoldable pub retune : ℕ → ℕ → LinkState → LinkState
retune silent_after rebuild_after s = record s {
  silent_after = silent_after;
  rebuild_after = rebuild_after;
}

-- The phase of a client that a frame reached.
abbrev pub phase_with : Bytes → Phase
phase_with [] = live
phase_with (b ∷ held) = confirming

unfoldable pub heard : ℕ → LinkState → LinkState
heard now s = record s { last_heard = now; owed_since = none; phase = phase_with s.held }

unfoldable pub sent : ℕ → LinkState → LinkState
sent now s = record s { last_sent = now }

unfoldable pub heartbeat_due : ℕ → LinkState → Bool
heartbeat_due now s = leb heartbeat_idle (now - max s.last_heard s.last_sent)

-- When the reply that is owed now started to be.
abbrev pub owing : ℕ → Bool → Option ℕ → Option ℕ
owing now false since = none
owing now true none = some now
owing now true (some since) = some since

-- Whether a reply has been owed for too long.
abbrev pub overdue : ℕ → ℕ → Option ℕ → Bool
overdue now silent_after none = false
overdue now silent_after (some since) = leb silent_after (now - since)

-- `evaluate` in `Live` and `Confirming`.
unfoldable pub judge : ℕ → Bool → LinkState → LinkState
judge now reply_owed s =
    let since = owing now reply_owed s.owed_since in
    record s {
      owed_since = since;
      phase = if overdue now s.silent_after since then silent s.last_heard else s.phase;
    }

-- `evaluate`, in the phase that it finds.
unfoldable pub evaluate_in : Phase → ℕ → Bool → LinkState → LinkState
evaluate_in live now reply_owed s = judge now reply_owed s
evaluate_in (silent since) now reply_owed s =
    if leb s.rebuild_after (now - since) then record s { phase = recovering 0 now } else s
evaluate_in (recovering attempt next_try) now reply_owed s = s
evaluate_in confirming now reply_owed s = judge now reply_owed s

-- What the source's `evaluate` returns is the new state's phase.
unfoldable pub evaluate : ℕ → Bool → LinkState → LinkState
evaluate now reply_owed s = evaluate_in s.phase now reply_owed s

-- The next three act on `Recovering` only.
unfoldable pub begun : ℕ → Phase → Phase
begun now (recovering attempt next_try) = recovering attempt (now + backoff attempt)
begun now live = live
begun now (silent since) = silent since
begun now confirming = confirming

unfoldable pub begin_attempt : ℕ → LinkState → LinkState
begin_attempt now s = record s { phase = begun now s.phase }

unfoldable pub restarted : ℕ → Phase → Phase
restarted now (recovering attempt next_try) = recovering 0 (now + backoff 0)
restarted now live = live
restarted now (silent since) = silent since
restarted now confirming = confirming

unfoldable pub rebuilt : ℕ → LinkState → LinkState
rebuilt now s = record s { phase = restarted now s.phase }

abbrev pub u32_max : ℕ
u32_max = 0xffff_ffff

abbrev pub next_attempt : ℕ → ℕ
next_attempt attempt = min (attempt + 1) u32_max

unfoldable pub postponed : ℕ → Phase → Phase
postponed now (recovering attempt next_try) =
    recovering (next_attempt attempt) (now + backoff (next_attempt attempt))
postponed now live = live
postponed now (silent since) = silent since
postponed now confirming = confirming

unfoldable pub attempt_failed : ℕ → LinkState → LinkState
attempt_failed now s = record s { phase = postponed now s.phase }

unfoldable pub held_is_full : LinkState → Bool
held_is_full s = leb max_held (length s.held)

unfoldable pub take_held : LinkState → LinkState × Bytes
take_held s = (record s { phase = live; held = [] }, s.held)

unfoldable pub drop_held : LinkState → LinkState
drop_held s = record s { phase = live; held = [] }

unfoldable pub hold_keys : Bytes → LinkState → LinkState
hold_keys bytes s =
    let room = max_held - length s.held in
    record s { held = s.held ++ take (min (length bytes) room) bytes }
