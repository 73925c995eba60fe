-- ===== src/Net/Ice/Tables.antt =====
-- ice.rs: the pairs that are checked, the requests that are out, and the best pair. The tables of the
-- agent.
use oxutrm.Base.{
  ℕ, Bool, true, false, ◌&&◌, ◌||◌, List, [], ◌∷◌, Option, none, some, ltb, if◌then◌else◌,
}
use oxutrm.Proto.Addr.{SocketAddr, same, precedes, place, agrees}
use oxutrm.Proto.Rungs.{CandidateKind, Candidate}
use oxutrm.Net.Stun.{Tid}

pub record PairState : Type 0 where
  pub outbound_ok : Bool
  pub inbound_ok : Bool
  pub priority : ℕ
  pub kind : Option CandidateKind
  pub last_sent : Option ℕ

abbrev pub default : PairState
default = record {
  outbound_ok = false;
  inbound_ok = false;
  priority = 0;
  kind = none;
  last_sent = none;
}

unfoldable pub validated : PairState → Bool
validated s = s.outbound_ok && s.inbound_ok

-- A `BTreeMap` is its entries in the order of the addresses.
abbrev pub Pairs : Type 0
Pairs = List (SocketAddr × PairState)

-- `entry(remote).or_insert(fresh)`, and the change to what is there.
unfoldable pub entry : SocketAddr → PairState → (PairState → PairState) → Pairs → Pairs
unfolding precedes agrees
entry remote fresh change [] = (remote, change fresh) ∷ []
entry remote fresh change ((a, s) ∷ pairs) =
    if precedes (place remote) (place a)
    then (remote, change fresh) ∷ (a, s) ∷ pairs
    else if same a remote
    then (a, change s) ∷ pairs
    else (a, s) ∷ entry remote fresh change pairs

-- `get_mut`.
unfoldable pub amend : SocketAddr → (PairState → PairState) → Pairs → Pairs
unfolding agrees
amend remote change [] = []
amend remote change ((a, s) ∷ pairs) =
    if same a remote then (a, change s) ∷ pairs else (a, s) ∷ amend remote change pairs

unfoldable pub pair : SocketAddr → Pairs → Option PairState
unfolding agrees
pair remote [] = none
pair remote ((a, s) ∷ pairs) = if same a remote then some s else pair remote pairs

-- A `HashMap` of the requests that are out.
abbrev pub Outstanding : Type 0
Outstanding = List (Tid × SocketAddr × ℕ)

unfoldable pub asked : Tid → Outstanding → Option (SocketAddr × ℕ)
unfolding agrees
asked tid [] = none
asked tid ((t, remote, at) ∷ rest) = if agrees t tid then some (remote, at) else asked tid rest

unfoldable pub forget : Tid → Outstanding → Outstanding
unfolding agrees
forget tid [] = []
forget tid ((t, remote, at) ∷ rest) =
    if agrees t tid then forget tid rest else (t, remote, at) ∷ forget tid rest

unfoldable pub known : SocketAddr → List Candidate → Bool
unfolding agrees
known a [] = false
known a (c ∷ locals) = same c.addr a || known a locals

unfoldable pub seen_before : SocketAddr → List SocketAddr → Bool
unfolding agrees
seen_before a [] = false
seen_before a (b ∷ seen) = same b a || seen_before a seen

unfoldable pub admits : Option (SocketAddr → Bool) → SocketAddr → Bool
admits none remote = true
admits (some f) remote = f remote

-- `max_by_key` over the validated pairs that the filter admits: the highest priority, and of two with
-- the same the lower address.
unfoldable pub better : SocketAddr × PairState → SocketAddr × PairState → SocketAddr × PairState
unfolding precedes
better (a, s) (b, t) =
    if ltb t.priority s.priority
    then (a, s)
    else if ltb s.priority t.priority
    then (b, t)
    else if precedes (place a) (place b)
    then (a, s)
    else (b, t)

abbrev pub or_better :
    SocketAddr × PairState → Option (SocketAddr × PairState) → SocketAddr × PairState
or_better p none = p
or_better p (some q) = better p q

unfoldable pub best : Option (SocketAddr → Bool) → Pairs → Option (SocketAddr × PairState)
unfolding validated admits better
best filter [] = none
best filter ((a, s) ∷ pairs) =
    if validated s && admits filter a
    then some (or_better (a, s) (best filter pairs))
    else best filter pairs

abbrev pub address_of : Option (SocketAddr × PairState) → Option SocketAddr
address_of none = none
address_of (some (a, s)) = some a
