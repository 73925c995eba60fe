-- ===== src/Net/Ice/History.antt =====
-- What an agent's history holds, and that its tables claim no more.
use mathlib.Core.List.{Memᴰ}
use oxutrm.Base.{
  ℕ, ◌≡◌, sym, subst, ◌⊎◌, inl, inr, Bool, true, List, [], ◌∷◌, Option, some, All, Bool-cases,
}
use oxutrm.Proto.Frame.{Bytes}
use oxutrm.Proto.Addr.{SocketAddr, same, same→eq, place, precedes, agrees, agrees→eq}
use oxutrm.Proto.Rungs.{Candidate}
use oxutrm.Net.Socketfam.{unmap, to_socket_family}
use oxutrm.Net.Stun.{IceRole, outbound, inbound, Tid, Check, CheckKind}
use oxutrm.Net.Ice.Tables.{PairState, Pairs, entry, amend, Outstanding, asked, forget}
use oxutrm.Net.Ice.{
  Messages, Turn, IceAgent, Sends, new, add_local, add_remote, set_remote_filter, enter, turn,
}

-- What befalls an agent: its owner's calls, and the turns of its loop.
pub data Step : Type 0 where
  learn_own : Candidate → Step
  learn_theirs : Candidate → Step
  restrict : (SocketAddr → Bool) → Step
  called : ℕ → Step
  turned : Turn → Step

-- Some step of a history, newest first.
abbrev pub Happened : (Step → Type 0) → List Step → Type 0
Happened P [] = ⊥
Happened P (s ∷ history) = P s ⊎ Happened P history

-- Some step of a history, with what went before it.
abbrev pub Went : (Step → List Step → Type 0) → List Step → Type 0
Went P [] = ⊥
Went P (s ∷ history) = P s history ⊎ Went P history

module _ (messages : Messages) (local : SocketAddr) where
  unfoldable pub step : Step → IceAgent → IceAgent
  unfolding add_local add_remote set_remote_filter enter turn
  step (learn_own c) a = add_local c a
  step (learn_theirs c) a = add_remote c a
  step (restrict f) a = set_remote_filter f a
  step (called now) a = (enter now a).0
  step (turned t) a = (turn messages local t a).0

  -- The agent after a history, newest first.
  unfoldable pub after : IceAgent → List Step → IceAgent
  unfolding step
  after a [] = a
  after a (s ∷ history) = step s (after a history)

module _ (messages : Messages) (local : SocketAddr) (role : IceRole) (timeout : ℕ) where
  -- What a turn hands to the socket, of a new agent with this history.
  abbrev pub turn_sends : Turn → List Step → Sends
  turn_sends t history = (turn messages local t (after messages local (new role timeout) history)).2

  -- A request of the peer's arrived from the remote.
  abbrev pub Requested : SocketAddr → Step → Type 0
  Requested remote (learn_own c) = ⊥
  Requested remote (learn_theirs c) = ⊥
  Requested remote (restrict f) = ⊥
  Requested remote (called now) = ⊥
  Requested remote (turned t) =
      (from : SocketAddr) × (datagram : Bytes) × (check : Check) × (t.arrival
        ≡ some (from, datagram))
      × (unmap from ≡ remote)
      × (messages.parse (inbound role) datagram ≡ some check)
      × (check.kind ≡ CheckKind.request)

  -- A check with this transaction, signed as this end signs, was sent to the remote, in the form that
  -- the socket can address.
  abbrev pub Asked : Tid → SocketAddr → Step → List Step → Type 0
  Asked tid remote (learn_own c) history = ⊥
  Asked tid remote (learn_theirs c) history = ⊥
  Asked tid remote (restrict f) history = ⊥
  Asked tid remote (called now) history = ⊥
  Asked tid remote (turned t) history =
      (msg : Bytes) × (messages.request (outbound role) tid ≡ some msg)
      × Memᴰ (to_socket_family local remote, msg) (turn_sends t history)

  -- A response to this transaction arrived.
  abbrev pub Responded : Tid → Step → Type 0
  Responded tid (learn_own c) = ⊥
  Responded tid (learn_theirs c) = ⊥
  Responded tid (restrict f) = ⊥
  Responded tid (called now) = ⊥
  Responded tid (turned t) =
      (from : SocketAddr) × (datagram : Bytes) × (check : Check) × (t.arrival
        ≡ some (from, datagram))
      × (messages.parse (outbound role) datagram ≡ some check)
      × (check.kind ≡ CheckKind.success_response)
      × (check.tid ≡ tid)

  -- A check to the remote was answered: its response came in some turn, and it had been sent by then.
  abbrev pub Answered : SocketAddr → List Step → Type 0
  Answered remote [] = ⊥
  Answered remote (s ∷ history) =
      ((tid : Tid) × Responded tid s × Went (Asked tid remote) (s ∷ history))
      ⊎ Answered remote history

  -- What a pair claims is true of the history.
  abbrev pub Earned : List Step → SocketAddr × PairState → Type 0
  Earned history (remote, s) =
      (s.inbound_ok ≡ true → Happened (Requested remote) history)
      × (s.outbound_ok ≡ true → Answered remote history)

  abbrev pub Sent : List Step → Tid × SocketAddr × ℕ → Type 0
  Sent history (tid, remote, at) = Went (Asked tid remote) history

-- The tables' operations keep what is true of every entry.
module _ (P : SocketAddr × PairState → Type 0) where
  pub entry-All :
      (remote : SocketAddr) (fresh : PairState) (change : PairState → PairState) (pairs : Pairs)
      → P (remote, change fresh)
      → ((s : PairState) → P (remote, s) → P (remote, change s))
      → All P pairs
      → All P (entry remote fresh change pairs)
  unfolding entry
  entry-All remote fresh change [] new keeps h = (new, tt)
  entry-All remote fresh change ((a, s) ∷ pairs) new keeps h =
      elim (Bool-cases (precedes (place remote) (place a))) [
        | inl e ↦ rw e (new, h)
        | inr e ↦ rw e (elim (Bool-cases (same a remote)) [
          | inl k ↦
              let is : a ≡ remote = same→eq a remote k in
              rw k (
                subst (λ b. P (b, change s)) (sym is) (keeps s (subst (λ b. P (b, s)) is h.0)),
                h.1,
              )
          | inr k ↦ rw k (h.0, entry-All remote fresh change pairs new keeps h.1)
        ])
      ]

  pub amend-All :
      (remote : SocketAddr) (change : PairState → PairState) (pairs : Pairs)
      → ((s : PairState) → P (remote, s) → P (remote, change s))
      → All P pairs
      → All P (amend remote change pairs)
  unfolding amend
  amend-All remote change [] keeps h = tt
  amend-All remote change ((a, s) ∷ pairs) keeps h = elim (Bool-cases (same a remote)) [
    | inl k ↦
        let is : a ≡ remote = same→eq a remote k in
        rw k (subst (λ b. P (b, change s)) (sym is) (keeps s (subst (λ b. P (b, s)) is h.0)), h.1)
    | inr k ↦ rw k (h.0, amend-All remote change pairs keeps h.1)
  ]

module _ (Q : Tid × SocketAddr × ℕ → Type 0) where
  pub forget-All : (tid : Tid) (out : Outstanding) → All Q out → All Q (forget tid out)
  unfolding forget
  forget-All tid [] h = tt
  forget-All tid ((t, remote, at) ∷ out) h = elim (Bool-cases (agrees t tid)) [
    | inl e ↦ rw e (forget-All tid out h.1)
    | inr e ↦ rw e (h.0, forget-All tid out h.1)
  ]

  pub asked-All :
      (tid : Tid) (out : Outstanding) (remote : SocketAddr) (at : ℕ)
      → asked tid out ≡ some (remote, at)
      → All Q out
      → Q (tid, remote, at)
  unfolding asked
  asked-All tid [] remote at e h = absurd (cc)
  asked-All tid ((t, r, n) ∷ out) remote at e h = elim (Bool-cases (agrees t tid)) [
    | inl k ↦
        let found : ◌≡◌ {A = Option (SocketAddr × ℕ)} (some (r, n)) (some (remote, at)) =
          (rw k at e) in
        let is : t ≡ tid = agrees→eq t tid k in
        let where_to : r ≡ remote = cc in
        let when : n ≡ at = cc in
        subst (λ m. Q (tid, remote, m)) when
          (subst (λ b. Q (tid, b, n)) where_to (subst (λ u. Q (u, r, n)) is h.0))
    | inr k ↦ asked-All tid out remote at (rw k at e) h.1
  ]
