-- ===== src/Net/Ice.antt =====
-- crates/oxutrm-net/src/ice.rs: the agent that checks pairs of addresses and settles on one. A time is
-- a number of nanoseconds.
pub mod Tables
pub mod History
pub mod Best
pub mod Nomination
pub mod Chosen
pub mod Strangers
use oxutrm.Base.{
  ℕ, zero, suc, ◌+◌, ◌-◌, ◌*◌, ◌≡◌, Bool, true, false, not, ◌&&◌, ◌||◌, List, [], ◌∷◌, ◌++◌, Option,
  none, some, leb, ltb, ◌==◌, length, if◌then◌else◌,
}
use oxutrm.Proto.Frame.{Bytes}
use oxutrm.Proto.Addr.{SocketAddr, ip, same, precedes, place, agrees}
use oxutrm.Proto.Rungs.{
  CandidateKind, server_reflexive, peer_reflexive, Candidate, Rung, punched, of_candidate,
  family_of,
}
use oxutrm.Net.Priority.{ice_priority}
use oxutrm.Net.Socketfam.{unmap, to_socket_family}
use oxutrm.Net.Stun.{
  IceRole, controlling, controlled, Direction, outbound, inbound, Tid, Check, CheckKind,
}
use oxutrm.Net.Ice.Tables.{
  PairState, default, validated, Pairs, entry, amend, pair, Outstanding, asked, forget, known,
  seen_before, admits, better, or_better, best, address_of,
}

abbrev pub retry_interval : ℕ
retry_interval = 200_000_000

-- What the agent takes of the STUN messages, for its credentials.
pub record Messages : Type 0 where
  pub request : Direction → Tid → Option Bytes
  pub response : Direction → Tid → SocketAddr → Option Bytes
  pub nomination : Direction → Tid → Option Bytes
  pub parse : Direction → Bytes → Option Check

pub record IceAgent : Type 0 where
  pub role : IceRole
  pub gather_timeout : ℕ
  pub locals : List Candidate
  pub pairs : Pairs
  pub outstanding : Outstanding
  pub reflexive_seen : List SocketAddr
  pub probes : ℕ
  pub last_rtt : Option ℕ
  pub deadline : Option ℕ
  pub nominated : Option SocketAddr
  pub done : Bool
  pub remote_filter : Option (SocketAddr → Bool)

pub data IceEvent : Type 0 where
  new_local_candidate : Candidate → IceEvent
  nominated : SocketAddr → SocketAddr → Rung → ℕ → IceEvent
  no_remotes finished timed_out : IceEvent

unfoldable pub new : IceRole → ℕ → IceAgent
new role gather_timeout = record {
  role = role;
  gather_timeout = gather_timeout;
  locals = [];
  pairs = [];
  outstanding = [];
  reflexive_seen = [];
  probes = 0;
  last_rtt = none;
  deadline = none;
  nominated = none;
  done = false;
  remote_filter = none;
}

unfoldable pub set_remote_filter : (SocketAddr → Bool) → IceAgent → IceAgent
set_remote_filter f a = record a { remote_filter = some f }

unfoldable pub add_local : Candidate → IceAgent → IceAgent
unfolding known
add_local c a = if known c.addr a.locals then a else record a { locals = a.locals ++ c ∷ [] }

abbrev pub promote : Candidate → PairState → PairState
promote c s =
    if ltb s.priority c.priority then record s { priority = c.priority; kind = some c.kind } else s

unfoldable pub add_remote : Candidate → IceAgent → IceAgent
unfolding entry unmap
add_remote c a = record a { pairs = entry (unmap c.addr) default (promote c) a.pairs }

unfoldable pub best_validated : IceAgent → Option SocketAddr
unfolding best
best_validated a = address_of (best a.remote_filter a.pairs)

abbrev pub rung_of : Option PairState → SocketAddr → Rung
rung_of none remote = punched (family_of remote)
rung_of (some s) remote = elim s.kind [
  | none ↦ punched (family_of remote)
  | some k ↦ of_candidate k remote
]

unfoldable pub nominated_event : SocketAddr → SocketAddr → IceAgent → IceEvent
unfolding pair of_candidate family_of unmap
nominated_event local remote a =
    nominated (unmap local) remote (rung_of (pair remote a.pairs) remote) a.probes

-- `socket.send_to(...)`: where to, and what.
abbrev pub Sends : Type 0
Sends = List (SocketAddr × Bytes)

-- What the world has in store for a check of a remote: its random transaction id, and whether the
-- socket takes it.
pub record Fate : Type 0 where
  pub tid : Tid
  pub goes_out : Bool

unfoldable pub is_due : ℕ → PairState → Bool
is_due now s =
    not s.outbound_ok && elim s.last_sent [ none ↦ true | some t ↦ leb retry_interval (now - t) ]

unfoldable pub due : ℕ → Pairs → List SocketAddr
unfolding is_due
due now [] = []
due now ((a, s) ∷ pairs) = if is_due now s then a ∷ due now pairs else due now pairs

module _ (messages : Messages) (local : SocketAddr) where
  -- A check that was sent.
  unfoldable pub count_check : ℕ → Tid → SocketAddr → IceAgent → IceAgent
  unfolding amend forget
  count_check now tid remote a = record a {
    probes = a.probes + 1;
    outstanding = (tid, remote, now) ∷ forget tid a.outstanding;
    pairs = amend remote (λ s. record s { last_sent = some now }) a.pairs;
  }

  -- A check that was built, or was not.
  unfoldable pub send_built : Option Bytes → ℕ → Fate → SocketAddr → IceAgent → IceAgent × Sends
  unfolding count_check
  send_built none now fate remote a = (a, [])
  send_built (some msg) now fate remote a =
      if fate.goes_out
      then (count_check now fate.tid remote a, (to_socket_family local remote, msg) ∷ [])
      else (a, [])

  unfoldable pub send_check : ℕ → Fate → SocketAddr → IceAgent → IceAgent × Sends
  unfolding send_built outbound
  send_check now fate remote a =
      send_built (messages.request (outbound a.role) fate.tid) now fate remote a

  unfoldable pub send_checks :
      ℕ → (SocketAddr → Fate) → List SocketAddr → IceAgent → IceAgent × Sends
  unfolding send_check
  send_checks now fates [] a = (a, [])
  send_checks now fates (remote ∷ remotes) a =
      let (a', sent) = send_check now (fates remote) remote a in
      let (a'', more) = send_checks now fates remotes a' in (a'', sent ++ more)

  unfoldable pub send_due_checks : ℕ → (SocketAddr → Fate) → IceAgent → IceAgent × Sends
  unfolding send_checks due
  send_due_checks now fates a = send_checks now fates (due now a.pairs) a

  abbrev pub sent_to : SocketAddr → Option Bytes → Sends
  sent_to remote none = []
  sent_to remote (some msg) = (to_socket_family local remote, msg) ∷ []

  abbrev pub Outcome : Type 0
  Outcome = IceAgent × Option IceEvent × Sends

  -- A pair that a request of the peer's makes known.
  unfoldable pub learned : SocketAddr → PairState
  learned from = record default {
    priority = ice_priority peer_reflexive (ip from);
    kind = some peer_reflexive;
  }

  -- A nomination: only the controlling side nominates, so it obeys none.
  unfoldable pub on_nomination : IceRole → SocketAddr → IceAgent → Outcome
  unfolding nominated_event
  on_nomination controlled from a =
      let a' = record a { nominated = some from; done = true } in
      (a', some (nominated_event local from a'), [])
  on_nomination controlling from a = (a, none, [])

  -- A message that verifies under the peer's direction.
  unfoldable pub on_peer : CheckKind → SocketAddr → Tid → IceAgent → Outcome
  unfolding learned on_nomination entry inbound
  on_peer CheckKind.request from tid a = (
    record a { pairs = entry from (learned from) (λ s. record s { inbound_ok = true }) a.pairs },
    none,
    sent_to from (messages.response (inbound a.role) tid from),
  )
  on_peer CheckKind.nomination from tid a = on_nomination a.role from a
  on_peer CheckKind.success_response from tid a = (a, none, [])

  -- The address that the peer saw, if it is news.
  unfoldable pub learn_local : Option SocketAddr → IceAgent → Outcome
  learn_local none a = (a, none, [])
  learn_local (some seen) a =
      if seen_before seen a.reflexive_seen
      then (a, none, [])
      else if known seen a.locals
      then (record a { reflexive_seen = seen ∷ a.reflexive_seen }, none, [])
      else let c : Candidate = record {
        addr = seen;
        kind = server_reflexive;
        priority = ice_priority server_reflexive (ip seen);
      } in
        (
          record a { reflexive_seen = seen ∷ a.reflexive_seen; locals = a.locals ++ c ∷ [] },
          some (new_local_candidate c),
          [],
        )

  unfoldable pub on_answer : ℕ → Check → SocketAddr → ℕ → IceAgent → Outcome
  unfolding learn_local forget amend
  on_answer now check remote sent_at a = learn_local check.reflexive (record a {
    outstanding = forget check.tid a.outstanding;
    last_rtt = some (now - sent_at);
    pairs = amend remote (λ s. record s { outbound_ok = true }) a.pairs;
  })

  -- A response to a request that is out, or to none.
  unfoldable pub on_asked : Option (SocketAddr × ℕ) → ℕ → Check → IceAgent → Outcome
  unfolding on_answer
  on_asked none now check a = (a, none, [])
  on_asked (some (remote, sent_at)) now check a = on_answer now check remote sent_at a

  -- A message that verifies under this end's own direction.
  unfoldable pub on_own : CheckKind → ℕ → Check → IceAgent → Outcome
  unfolding on_asked asked
  on_own CheckKind.success_response now check a =
      on_asked (asked check.tid a.outstanding) now check a
  on_own CheckKind.request now check a = (a, none, [])
  on_own CheckKind.nomination now check a = (a, none, [])

  -- By what the datagram verifies as, in the peer's direction and in this end's own.
  unfoldable pub on_checks : Option Check → Option Check → ℕ → SocketAddr → IceAgent → Outcome
  unfolding on_peer on_own
  on_checks (some check) own now from a = on_peer check.kind from check.tid a
  on_checks none (some check) now from a = on_own check.kind now check a
  on_checks none none now from a = (a, none, [])

  unfoldable pub on_datagram : ℕ → SocketAddr → Bytes → IceAgent → Outcome
  unfolding on_checks inbound outbound
  on_datagram now from datagram a =
      on_checks (messages.parse (inbound a.role) datagram)
        (messages.parse (outbound a.role) datagram) now from a

-- What the world has in store for one turn of the loop: the clock as the deadline is tested, as the
-- checks are sent and as a datagram is handled, the fates of the checks, the nomination's transaction
-- id, and what arrives within the slice, if anything.
pub record Turn : Type 0 where
  pub tested_at : ℕ
  pub sent_at : ℕ
  pub fates : SocketAddr → Fate
  pub nomination_tid : Tid
  pub handled_at : ℕ
  pub arrival : Option (SocketAddr × Bytes)

abbrev pub is_past : ℕ → Option ℕ → Bool
is_past now none = false
is_past now (some deadline) = leb deadline now

module _ (messages : Messages) (local : SocketAddr) where
  -- The controlling side that has nominated none.
  unfoldable pub choice : IceRole → Option SocketAddr → IceAgent → Option SocketAddr
  unfolding best_validated
  choice controlling none a = best_validated a
  choice controlling (some remote) a = none
  choice controlled chosen a = none

  -- The nomination goes out three times.
  unfoldable pub nominate : Tid → SocketAddr → IceAgent → IceAgent × Option IceEvent × Sends
  unfolding nominated_event
  nominate tid remote a =
      let a' = record a { nominated = some remote; done = true } in
      let sent = sent_to messages local remote (messages.nomination (outbound a.role) tid) in
      (a', some (nominated_event local remote a'), sent ++ (sent ++ sent))

  unfoldable pub receive :
      Option (SocketAddr × Bytes) → ℕ → IceAgent → IceAgent × Option IceEvent × Sends
  unfolding on_datagram unmap
  receive none now a = (a, none, [])
  receive (some (from, datagram)) now a = on_datagram messages local now (unmap from) datagram a

  -- After the checks went out.
  unfoldable pub settle : Option SocketAddr → Turn → IceAgent → IceAgent × Option IceEvent × Sends
  unfolding nominate receive
  settle (some remote) t a = nominate t.nomination_tid remote a
  settle none t a = receive t.arrival t.handled_at a

  -- By whether the agent has finished and whether the deadline has passed.
  unfoldable pub proceed : Bool → Bool → Turn → IceAgent → IceAgent × Option IceEvent × Sends
  unfolding send_due_checks settle choice
  proceed true past t a = (a, some finished, [])
  proceed false true t a = (record a { done = true }, some timed_out, [])
  proceed false false t a =
      let (a', checks) = send_due_checks messages local t.sent_at t.fates a in
      let (a'', event, sent) = settle (choice a'.role a'.nominated a') t a' in
      (a'', event, checks ++ sent)

  unfoldable pub turn : Turn → IceAgent → IceAgent × Option IceEvent × Sends
  unfolding proceed
  turn t a = proceed a.done (is_past t.tested_at a.deadline) t a

-- A call of `run` up to its loop.
abbrev pub first_deadline : ℕ → ℕ → Option ℕ → Option ℕ
first_deadline now timeout none = some (now + timeout)
first_deadline now timeout (some deadline) = some deadline

unfoldable pub enter : ℕ → IceAgent → IceAgent × Option IceEvent
enter now a = (
  record a { deadline = first_deadline now a.gather_timeout a.deadline },
  elim a.pairs [ [] ↦ some no_remotes | p ∷ pairs ↦ none ],
)
