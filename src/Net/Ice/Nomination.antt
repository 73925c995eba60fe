-- ===== src/Net/Ice/Nomination.antt =====
-- The controlling end settles only on a remote that both directions were proven for.
use mathlib.Core.List.{Memᴰ}
use oxutrm.Base.{
  mem-append-left, mem-append-right, ◌∙◌, ℕ, ◌≡◌, refl, sym, ap, inl, inr, Bool, true, false, List,
  [], ◌∷◌, Option, none, some, All, All-map, Bool-cases, Option-cases, ltb,
}
use oxutrm.Proto.Frame.{Bytes}
use oxutrm.Proto.Addr.{SocketAddr}
use oxutrm.Proto.Rungs.{Candidate}
use oxutrm.Net.Socketfam.{unmap}
use oxutrm.Net.Stun.{IceRole, controlling, controlled, outbound, inbound, Tid, Check, CheckKind}
use oxutrm.Net.Ice.Tables.{PairState, default, asked, known, seen_before}
use oxutrm.Net.Ice.{
  Messages, Sends, IceAgent, Turn, new, set_remote_filter, add_local, add_remote, enter, turn,
  send_check, send_checks, send_due_checks, count_check, due, on_peer, on_own, on_asked, on_checks,
  on_nomination, send_built, on_answer, learn_local, on_datagram, settle, nominate, receive,
  promote, learned, is_past, proceed,
}
use oxutrm.Net.Ice.History.{
  step, after, turn_sends, Went, Step, learn_own, learn_theirs, restrict, called, turned, Happened,
  Requested, Asked, Responded, Earned, Sent, entry-All, amend-All, forget-All, asked-All,
}

module _ (messages : Messages) (local : SocketAddr) (role : IceRole) (timeout : ℕ) where
  pub record Honest (history : List Step) (a : IceAgent) : Type 0 where
    pub in_role : a.role ≡ role
    pub pairs_earned : All (Earned messages local role timeout history) a.pairs
    pub checks_sent : All (Sent messages local role timeout history) a.outstanding

  Honest-later :
      (s : Step) (history : List Step) (a : IceAgent) → Honest history a → Honest (s ∷ history) a
  Honest-later s history a h = record {
    in_role = h.in_role;
    pairs_earned = All-map a.pairs (λ p e. ((λ i. inr (e.0 i)), (λ o. inr (e.1 o)))) h.pairs_earned;
    checks_sent = All-map a.outstanding (λ o e. inr e) h.checks_sent;
  }

  module _ (t : Turn) (history : List Step) where
    -- What is sent by a part of the turn is sent by the turn.
    abbrev Part : Sends → Type 0
    Part sent =
        (p : SocketAddr × Bytes)
        → Memᴰ p sent
        → Memᴰ p (turn_sends messages local role timeout t history)

    send_check-Honest :
        (now : ℕ) (remote : SocketAddr) (a : IceAgent)
        → Part (send_check messages local now (t.fates remote) remote a).1
        → Honest (turned t ∷ history) a
        → Honest (turned t ∷ history) (send_check messages local now (t.fates remote) remote a).0
    unfolding send_check send_built count_check
    send_check-Honest now remote a part h =
        elim (Option-cases (messages.request (outbound a.role) (t.fates remote).tid)) [
          | inl e ↦ rw e h
          | inr (msg, e) ↦ rw e (elim (Bool-cases (t.fates remote).goes_out) [
            | inl out ↦
                let part' = (rw out at (rw e at part)) in
                rw out record {
                  in_role = h.in_role;
                  pairs_earned =
                      amend-All (Earned messages local role timeout (turned t ∷ history)) remote
                        (λ s. record s { last_sent = some now }) a.pairs (λ s k. k) h.pairs_earned;
                  checks_sent = (
                    inl (
                      msg,
                      ap (λ r. messages.request (outbound r) (t.fates remote).tid) (sym h.in_role)
                          ∙ e,
                      part' _ (Memᴰ.head refl),
                    ),
                    forget-All (Sent messages local role timeout (turned t ∷ history))
                        (t.fates remote).tid a.outstanding h.checks_sent,
                  );
                }
            | inr out ↦ rw out h
          ])
        ]

    send_checks-Honest :
        (now : ℕ) (remotes : List SocketAddr) (a : IceAgent)
        → Part (send_checks messages local now t.fates remotes a).1
        → Honest (turned t ∷ history) a
        → Honest (turned t ∷ history) (send_checks messages local now t.fates remotes a).0
    unfolding send_checks
    send_checks-Honest now [] a part h = h
    send_checks-Honest now (remote ∷ remotes) a part h =
        let (a', sent) = send_check messages local now (t.fates remote) remote a in
        send_checks-Honest now remotes a' (λ p m. part p (mem-append-right sent m))
          (send_check-Honest now remote a (λ p m. part p (mem-append-left _ m)) h)

    entry-Honest :
        (from : SocketAddr) (a : IceAgent)
        → Happened (Requested messages local role timeout from) (turned t ∷ history)
        → Honest (turned t ∷ history) a
        → (tid : Tid)
        → Honest (turned t ∷ history) (on_peer messages local CheckKind.request from tid a).0
    unfolding on_peer learned
    entry-Honest from a requested h tid = record {
      in_role = h.in_role;
      pairs_earned =
          entry-All (Earned messages local role timeout (turned t ∷ history)) from
            (learned messages local from) (λ s. record s { inbound_ok = true }) a.pairs
            ((λ i. requested), (λ o. absurd (cc))) (λ s k. ((λ i. requested), k.1)) h.pairs_earned;
      checks_sent = h.checks_sent;
    }

    on_nomination-Honest :
        (r : IceRole) (from : SocketAddr) (a : IceAgent)
        → Honest (turned t ∷ history) a
        → Honest (turned t ∷ history) (on_nomination messages local r from a).0
    unfolding on_nomination
    on_nomination-Honest controlled from a h = record {
      in_role = h.in_role;
      pairs_earned = h.pairs_earned;
      checks_sent = h.checks_sent;
    }
    on_nomination-Honest controlling from a h = h

    learn_local-Honest :
        (seen : Option SocketAddr) (a : IceAgent)
        → Honest (turned t ∷ history) a
        → Honest (turned t ∷ history) (learn_local messages local seen a).0
    unfolding learn_local
    learn_local-Honest none a h = h
    learn_local-Honest (some seen) a h = elim (Bool-cases (seen_before seen a.reflexive_seen)) [
      | inl e ↦ rw e h
      | inr e ↦ rw e (elim (Bool-cases (known seen a.locals)) [
        | inl k ↦ rw k record {
          in_role = h.in_role;
          pairs_earned = h.pairs_earned;
          checks_sent = h.checks_sent;
        }
        | inr k ↦ rw k record {
          in_role = h.in_role;
          pairs_earned = h.pairs_earned;
          checks_sent = h.checks_sent;
        }
      ])
    ]

    on_asked-Honest :
        (found : Option (SocketAddr × ℕ)) (now : ℕ) (check : Check) (a : IceAgent)
        → asked check.tid a.outstanding ≡ found
        → Responded messages local role timeout check.tid (turned t)
        → Honest (turned t ∷ history) a
        → Honest (turned t ∷ history) (on_asked messages local found now check a).0
    unfolding on_asked on_answer
    on_asked-Honest none now check a e answered h = h
    on_asked-Honest (some (remote, sent_at)) now check a e answered h =
        let went : Went (Asked messages local role timeout check.tid remote) (turned t ∷ history) =
          asked-All (Sent messages local role timeout (turned t ∷ history)) check.tid a.outstanding
            remote sent_at e h.checks_sent in
        learn_local-Honest check.reflexive _ record {
          in_role = h.in_role;
          pairs_earned =
              amend-All (Earned messages local role timeout (turned t ∷ history)) remote
                (λ s. record s { outbound_ok = true }) a.pairs
                (λ s k. (k.0, (λ o. inl (check.tid, answered, went)))) h.pairs_earned;
          checks_sent =
              forget-All (Sent messages local role timeout (turned t ∷ history)) check.tid
                a.outstanding h.checks_sent;
        }

    -- A datagram from the remote that the turn's arrival is.
    module _ (from : SocketAddr) (datagram : Bytes) (is : t.arrival ≡ some (from, datagram)) where
      on_peer-Honest :
          (kind : CheckKind) (check : Check) (a : IceAgent)
          → check.kind ≡ kind
          → messages.parse (inbound role) datagram ≡ some check
          → Honest (turned t ∷ history) a
          → Honest (turned t ∷ history) (on_peer messages local kind (unmap from) check.tid a).0
      unfolding on_peer
      on_peer-Honest CheckKind.request check a k e h =
          entry-Honest (unmap from) a (inl (from, datagram, check, is, refl, e, k)) h check.tid
      on_peer-Honest CheckKind.nomination check a k e h =
          on_nomination-Honest a.role (unmap from) a h
      on_peer-Honest CheckKind.success_response check a k e h = h

      on_own-Honest :
          (kind : CheckKind) (now : ℕ) (check : Check) (a : IceAgent)
          → check.kind ≡ kind
          → messages.parse (outbound role) datagram ≡ some check
          → Honest (turned t ∷ history) a
          → Honest (turned t ∷ history) (on_own messages local kind now check a).0
      unfolding on_own
      on_own-Honest CheckKind.success_response now check a k e h =
          on_asked-Honest (asked check.tid a.outstanding) now check a refl
            (from, datagram, check, is, e, k, refl) h
      on_own-Honest CheckKind.request now check a k e h = h
      on_own-Honest CheckKind.nomination now check a k e h = h

      on_checks-Honest :
          (theirs own : Option Check) (now : ℕ) (a : IceAgent)
          → messages.parse (inbound role) datagram ≡ theirs
          → messages.parse (outbound role) datagram ≡ own
          → Honest (turned t ∷ history) a
          → Honest (turned t ∷ history) (on_checks messages local theirs own now (unmap from) a).0
      unfolding on_checks
      on_checks-Honest (some check) own now a e f h = on_peer-Honest check.kind check a refl e h
      on_checks-Honest none (some check) now a e f h = on_own-Honest check.kind now check a refl f h
      on_checks-Honest none none now a e f h = h

    receive-Honest :
        (arrival : Option (SocketAddr × Bytes)) (now : ℕ) (a : IceAgent)
        → t.arrival ≡ arrival
        → Honest (turned t ∷ history) a
        → Honest (turned t ∷ history) (receive messages local arrival now a).0
    unfolding receive on_datagram
    receive-Honest none now a is h = h
    receive-Honest (some (from, datagram)) now a is h =
        on_checks-Honest from datagram is (messages.parse (inbound a.role) datagram)
          (messages.parse (outbound a.role) datagram) now a
          (ap (λ r. messages.parse (inbound r) datagram) (sym h.in_role))
          (ap (λ r. messages.parse (outbound r) datagram) (sym h.in_role)) h

    settle-Honest :
        (chosen : Option SocketAddr) (a : IceAgent)
        → Honest (turned t ∷ history) a
        → Honest (turned t ∷ history) (settle messages local chosen t a).0
    unfolding settle nominate
    settle-Honest none a h = receive-Honest t.arrival t.handled_at a refl h
    settle-Honest (some remote) a h = record {
      in_role = h.in_role;
      pairs_earned = h.pairs_earned;
      checks_sent = h.checks_sent;
    }

    -- The agent as the choice is made.
    pub checked-Honest :
        (a : IceAgent)
        → Part (send_due_checks messages local t.sent_at t.fates a).1
        → Honest history a
        → Honest (turned t ∷ history) (send_due_checks messages local t.sent_at t.fates a).0
    unfolding send_due_checks
    checked-Honest a part h =
        send_checks-Honest t.sent_at (due t.sent_at a.pairs) a part
          (Honest-later (turned t) history a h)

    proceed-Honest :
        (done past : Bool) (a : IceAgent)
        → Part (proceed messages local done past t a).2
        → Honest history a
        → Honest (turned t ∷ history) (proceed messages local done past t a).0
    unfolding proceed
    proceed-Honest true past a part h = Honest-later (turned t) history a h
    proceed-Honest false true a part h =
        let later = Honest-later (turned t) history a h in
        record {
          in_role = later.in_role;
          pairs_earned = later.pairs_earned;
          checks_sent = later.checks_sent;
        }
    proceed-Honest false false a part h =
        settle-Honest _ _ (checked-Honest a (λ p m. part p (mem-append-left _ m)) h)

  promote-Earned :
      (c : Candidate) (history : List Step) (remote : SocketAddr) (s : PairState)
      → Earned messages local role timeout history (remote, s)
      → Earned messages local role timeout history (remote, promote c s)
  promote-Earned c history remote s h = elim (Bool-cases (ltb s.priority c.priority)) [
    | inl e ↦ rw e h
    | inr e ↦ rw e h
  ]

  pub step-Honest :
      (s : Step) (history : List Step)
      → Honest history (after messages local (new role timeout) history)
      → Honest
          (s ∷ history)
          (step messages local s (after messages local (new role timeout) history))
  unfolding step add_local add_remote set_remote_filter enter turn
  step-Honest (learn_own c) history h =
      let a = after messages local (new role timeout) history in
      let later = Honest-later (learn_own c) history a h in
      elim (Bool-cases (known c.addr a.locals)) [
        | inl k ↦ rw k later
        | inr k ↦ rw k record {
          in_role = later.in_role;
          pairs_earned = later.pairs_earned;
          checks_sent = later.checks_sent;
        }
      ]
  step-Honest (learn_theirs c) history h =
      let a = after messages local (new role timeout) history in
      let later = Honest-later (learn_theirs c) history a h in
      let at = learn_theirs c ∷ history in
      record {
        in_role = later.in_role;
        pairs_earned =
            entry-All (Earned messages local role timeout at) (unmap c.addr) default (promote c)
              a.pairs
              (promote-Earned c at (unmap c.addr) default ((λ i. absurd (cc)), (λ o. absurd (cc))))
              (promote-Earned c at (unmap c.addr)) later.pairs_earned;
        checks_sent = later.checks_sent;
      }
  step-Honest (restrict f) history h =
      let a = after messages local (new role timeout) history in
      let later = Honest-later (restrict f) history a h in
      record {
        in_role = later.in_role;
        pairs_earned = later.pairs_earned;
        checks_sent = later.checks_sent;
      }
  step-Honest (called now) history h =
      let a = after messages local (new role timeout) history in
      let later = Honest-later (called now) history a h in
      record {
        in_role = later.in_role;
        pairs_earned = later.pairs_earned;
        checks_sent = later.checks_sent;
      }
  step-Honest (turned t) history h =
      let a = after messages local (new role timeout) history in
      proceed-Honest t history a.done (is_past t.tested_at a.deadline) a (λ p m. m) h

  pub after-Honest :
      (history : List Step) → Honest history (after messages local (new role timeout) history)
  unfolding after new
  after-Honest [] = record { in_role = refl; pairs_earned = tt; checks_sent = tt }
  after-Honest (s ∷ history) = step-Honest s history (after-Honest history)
