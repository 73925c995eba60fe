-- ===== src/Net/Ice/Chosen.antt =====
-- What the controlling end nominates.
use mathlib.Core.List.{Memᴰ}
use oxutrm.Base.{
  members, mem-append-left, ℕ, ◌≡◌, ap, subst, ◌∙◌, inl, inr, Bool, true, false, List, ◌∷◌, Option,
  none, some, All, Bool-cases, Option-cases, arith,
}
use oxutrm.Proto.Frame.{Bytes}
use oxutrm.Proto.Addr.{SocketAddr}
use oxutrm.Proto.Rungs.{Rung}
use oxutrm.Net.Socketfam.{unmap}
use oxutrm.Net.Stun.{IceRole, controlling, controlled, inbound, outbound, Check, CheckKind}
use oxutrm.Net.Ice.Tables.{PairState, admits, best, validated, seen_before, known, asked}
use oxutrm.Net.Ice.Best.{best_sound, Outranked}
use oxutrm.Net.Ice.{
  Messages, IceAgent, IceEvent, nominated, Turn, new, turn, proceed, settle, choice, nominate,
  receive, on_datagram, on_checks, on_peer, on_own, on_asked, on_answer, on_nomination, learn_local,
  send_due_checks, best_validated, nominated_event, is_past,
}
use oxutrm.Net.Ice.History.{Step, turned, after, Happened, Requested, Answered, Earned}
use oxutrm.Net.Ice.Nomination.{checked-Honest, after-Honest}

validated_both :
    (s : PairState) → validated s ≡ true → (s.inbound_ok ≡ true) × (s.outbound_ok ≡ true)
unfolding validated
validated_both s h = ground (arith, h)

-- An event that settles on the remote.
abbrev pub SettlesOn : SocketAddr → Option IceEvent → Type 0
SettlesOn remote event =
    (from : SocketAddr) × (rung : Rung) × (probes : ℕ) × (event
      ≡ some (nominated from remote rung probes))

module _ (messages : Messages) (local : SocketAddr) where
  learn_local-quiet :
      (seen : Option SocketAddr) (a : IceAgent) (remote : SocketAddr)
      → ¬ SettlesOn remote (learn_local messages local seen a).1
  unfolding learn_local
  learn_local-quiet none a remote (l, r, n, e) = cc
  learn_local-quiet (some seen) a remote (l, r, n, e) =
      elim (Bool-cases (seen_before seen a.reflexive_seen)) [
        | inl k ↦ let clash = (rw k at e) in cc
        | inr k ↦
            let e' = (rw k at e) in
            elim (Bool-cases (known seen a.locals)) [
              | inl m ↦ let clash = (rw m at e') in cc
              | inr m ↦ let clash = (rw m at e') in cc
            ]
      ]

  on_asked-quiet :
      (found : Option (SocketAddr × ℕ)) (now : ℕ) (check : Check) (a : IceAgent)
      (remote : SocketAddr)
      → ¬ SettlesOn remote (on_asked messages local found now check a).1
  unfolding on_asked on_answer
  on_asked-quiet none now check a remote (l, r, n, e) = cc
  on_asked-quiet (some (r, at)) now check a remote h = learn_local-quiet check.reflexive _ remote h

  on_own-quiet :
      (kind : CheckKind) (now : ℕ) (check : Check) (a : IceAgent) (remote : SocketAddr)
      → ¬ SettlesOn remote (on_own messages local kind now check a).1
  unfolding on_own
  on_own-quiet CheckKind.success_response now check a remote h =
      on_asked-quiet (asked check.tid a.outstanding) now check a remote h
  on_own-quiet CheckKind.request now check a remote (l, r, n, e) = cc
  on_own-quiet CheckKind.nomination now check a remote (l, r, n, e) = cc

  on_peer-quiet :
      (kind : CheckKind) (from : SocketAddr) (check : Check) (a : IceAgent) (remote : SocketAddr)
      → a.role ≡ controlling
      → ¬ SettlesOn remote (on_peer messages local kind from check.tid a).1
  unfolding on_peer on_nomination
  on_peer-quiet CheckKind.success_response from check a remote is (l, r, n, e) = cc
  on_peer-quiet CheckKind.request from check a remote is (l, r, n, e) = cc
  on_peer-quiet CheckKind.nomination from check a remote is h =
      let (l, r, n, e) =
        subst (λ (me : IceRole). SettlesOn remote (on_nomination messages local me from a).1) is
          h in
      cc

  on_checks-quiet :
      (theirs own : Option Check) (now : ℕ) (from : SocketAddr) (a : IceAgent) (remote : SocketAddr)
      → a.role ≡ controlling
      → ¬ SettlesOn remote (on_checks messages local theirs own now from a).1
  unfolding on_checks
  on_checks-quiet (some check) own now from a remote is h =
      on_peer-quiet check.kind from check a remote is h
  on_checks-quiet none (some check) now from a remote is h =
      on_own-quiet check.kind now check a remote h
  on_checks-quiet none none now from a remote is (l, r, n, e) = cc

  -- A controlling end settles on nothing that a datagram says.
  receive-quiet :
      (arrival : Option (SocketAddr × Bytes)) (now : ℕ) (a : IceAgent) (remote : SocketAddr)
      → a.role ≡ controlling
      → ¬ SettlesOn remote (receive messages local arrival now a).1
  unfolding receive on_datagram
  receive-quiet none now a remote is (l, r, n, e) = cc
  receive-quiet (some (from, datagram)) now a remote is h =
      on_checks-quiet (messages.parse (inbound a.role) datagram)
        (messages.parse (outbound a.role) datagram) now (unmap from) a remote is h

  -- So what it settles on is its choice.
  settled :
      (chosen : Option SocketAddr) (t : Turn) (a : IceAgent) (remote : SocketAddr)
      → a.role ≡ controlling
      → SettlesOn remote (settle messages local chosen t a).1
      → chosen ≡ some remote
  unfolding settle nominate nominated_event
  settled none t a remote is h = absurd (receive-quiet t.arrival t.handled_at a remote is h)
  settled (some r) t a remote is (l, rung, n, e) = cc

  chosen_best :
      (role : IceRole) (before : Option SocketAddr) (a : IceAgent) (remote : SocketAddr)
      → choice messages local role before a ≡ some remote
      → (s : PairState) × (best a.remote_filter a.pairs ≡ some (remote, s))
  unfolding choice best_validated
  chosen_best controlling none a remote e = elim (Option-cases (best a.remote_filter a.pairs)) [
    | inl k ↦ absurd (let clash = (rw k at e) in cc)
    | inr ((r, s), k) ↦
        let same : ◌≡◌ {A = Option SocketAddr} (some r) (some remote) = (rw k at e) in
        let is : r ≡ remote = cc in
        (
          s,
          k
              ∙ ap (λ (b : SocketAddr). let o : Option (SocketAddr × PairState) = some (b, s) in o)
                  is,
        )
  ]
  chosen_best controlling (some r) a remote e = absurd (cc)
  chosen_best controlled before a remote e = absurd (cc)

  -- The agent as a turn makes its choice.
  abbrev pub checked : Turn → IceAgent → IceAgent
  checked t a = (send_due_checks messages local t.sent_at t.fates a).0

  -- A turn that settles sends its checks first.
  settled_turn :
      (done past : Bool) (t : Turn) (a : IceAgent) (remote : SocketAddr)
      → (checked t a).role ≡ controlling
      → SettlesOn remote (proceed messages local done past t a).1
      → (s : PairState) × (best (checked t a).remote_filter (checked t a).pairs ≡ some (remote, s))
  unfolding proceed
  settled_turn true past t a remote is (l, r, n, e) = absurd (cc)
  settled_turn false true t a remote is (l, r, n, e) = absurd (cc)
  settled_turn false false t a remote is h =
      let a' = checked t a in
      chosen_best a'.role a'.nominated a' remote
        (settled (choice messages local a'.role a'.nominated a') t a' remote is h)

  checks_first :
      (done past : Bool) (t : Turn) (a : IceAgent) (remote : SocketAddr)
      → SettlesOn remote (proceed messages local done past t a).1
      → (p : SocketAddr × Bytes) → Memᴰ p (send_due_checks messages local t.sent_at t.fates a).1
      → Memᴰ p (proceed messages local done past t a).2
  unfolding proceed
  checks_first true past t a remote (l, r, n, e) p m = absurd (cc)
  checks_first false true t a remote (l, r, n, e) p m = absurd (cc)
  checks_first false false t a remote h p m = mem-append-left _ m

  -- For a controlling agent, after any history of its owner's calls and the turns of its loop, with
  -- any datagrams, losses and failures: where a turn settles on a remote, a request of the peer's,
  -- verified in the peer's direction, arrived from that remote; a response arrived, verified in this
  -- end's own direction, to a transaction under which a request, signed in that direction, was among
  -- what the agent had sent to that remote by then; the owner's filter admits the remote; and no pair
  -- with both proofs that the filter admits has a higher priority than the remote's.
  pub settles_proven :
      (timeout : ℕ) (history : List Step) (t : Turn) (remote : SocketAddr)
      → SettlesOn remote
          (turn messages local t (after messages local (new controlling timeout) history)).1
      → Happened (Requested messages local controlling timeout remote) (turned t ∷ history)
        × Answered messages local controlling timeout remote (turned t ∷ history)
        × (admits
              (checked t (after messages local (new controlling timeout) history)).remote_filter
              remote
            ≡ true)
        × ((s : PairState) × Memᴰ
              (remote, s)
              (checked t (after messages local (new controlling timeout) history)).pairs
            × All
                (Outranked
                  (checked t (after messages local (new controlling timeout) history)).remote_filter
                  s.priority)
                (checked t (after messages local (new controlling timeout) history)).pairs)
  unfolding turn
  settles_proven timeout history t remote h =
      let a = after messages local (new controlling timeout) history in
      let honest =
        checked-Honest messages local controlling timeout t history a
          (checks_first a.done (is_past t.tested_at a.deadline) t a remote h)
          (after-Honest messages local controlling timeout history) in
      let (s, top) =
        settled_turn a.done (is_past t.tested_at a.deadline) t a remote honest.in_role h in
      let ((requested, answered), (proven, admitted), above) =
        best_sound (checked t a).remote_filter
          (Earned messages local controlling timeout (turned t ∷ history)) (checked t a).pairs
          (remote, s) top honest.pairs_earned in
      let (held, _, _) =
        best_sound (checked t a).remote_filter (λ p. Memᴰ p (checked t a).pairs) (checked t a).pairs
          (remote, s) top (members (checked t a).pairs) in
      (
        requested (validated_both s proven).0,
        answered (validated_both s proven).1,
        admitted,
        (s, held, above),
      )
