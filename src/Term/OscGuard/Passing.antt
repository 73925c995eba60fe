-- ===== src/Term/OscGuard/Passing.antt =====
-- Each part of a round loses nothing of an input that stays within the caps.
use oxutrm.Base.{
  ℕ, ◌≤◌, ◌≡◌, refl, sym, ap, subst, ◌∙◌, Bool, true, false, inl, inr, [], ◌∷◌, ◌++◌, ◌==◌, length,
  if◌then◌else◌, All, Bool-cases, append_assoc, append-nil,
}
use oxutrm.Proto.Frame.{Bytes}
use oxutrm.Term.OscGuard.{
  State, ground, escape, osc, discard, Pass, ends_osc, limit, in_ground, in_escape, take_body,
  terminate, after_osc, stays_escaped, esc,
}
use oxutrm.Term.OscGuard.Reading.{
  Reading, outside, escaped, string, advance, read_all, Throughout, kept, read_all-append,
  Throughout-rest, Throughout-here, outside_stays, string_grows, advance-ends,
  stays_escaped-lingers, lingers,
}
use oxutrm.Term.OscGuard.Trail.{FlushedIn}
use oxutrm.Term.OscGuard.Steps.{after_osc-FlushedIn}
use oxutrm.Term.OscGuard.Limits.{not_over, fits}

-- The parser's states over the raw input, where every byte of a body counts.
abbrev pub whatever : ℕ → Bool
whatever b = true

-- The reading that the guard stands for when it has passed everything on.
unfoldable pub read_as : State → Bytes → Reading
read_as ground held = outside
read_as escape held = escaped
read_as osc held = string held
read_as discard held = outside

-- Outside an OSC nothing is held.
abbrev pub Idle : State → Bytes → Type 0
Idle ground held = held ≡ []
Idle escape held = held ≡ []
Idle osc held = Unit
Idle discard held = ⊥

kept_all : (bytes : Bytes) → kept whatever bytes ≡ bytes
unfolding kept
kept_all [] = refl
kept_all (b ∷ bytes) = ap (λ (r : Bytes). b ∷ r) (kept_all bytes)

-- The input that is still to come, and the reading that it ends in.
abbrev pub Future : Reading → Bytes → Reading → Type 0
Future v bytes end = Throughout whatever v bytes × (read_all whatever v bytes ≡ end)

module _ (b : ℕ) where
  after_osc-Idle : Idle (after_osc b) []
  unfolding after_osc
  after_osc-Idle = elim (Bool-cases (b == esc)) [ inl e ↦ rw e refl | inr e ↦ rw e refl ]

  after_osc-read_as : (if b == esc then escaped else outside) ≡ read_as (after_osc b) []
  unfolding after_osc read_as
  after_osc-read_as = elim (Bool-cases (b == esc)) [ inl e ↦ rw e refl | inr e ↦ rw e refl ]

module _ (end : Reading) where
  Future-rest :
      (v w : Reading) (xs ys : Bytes)
      → read_all whatever v xs ≡ w
      → Future v (xs ++ ys) end
      → Future w ys end
  Future-rest v w xs ys e (calm, ends) =
      subst (λ (r : Reading). Future r ys end) e
        (Throughout-rest whatever v xs ys calm, sym (read_all-append whatever v xs ys) ∙ ends)

  Future-byte :
      (v w : Reading) (b : ℕ) (ys : Bytes)
      → advance whatever v b ≡ w
      → Future v (b ∷ ys) end
      → Future w ys end
  unfolding read_all
  Future-byte v w b ys e h = Future-rest v w (b ∷ []) ys e h

  module _ (whole later : Bytes) where
    -- A pass that has lost nothing of `whole`, with `later` yet to be fed.
    pub record Passes (p : Pass) : Type 0 where
      pub idle : Idle p.guard.state p.guard.held
      pub flushed : FlushedIn p.guard.state p.pending
      pub nothing_lost : p.out ++ (p.pending ++ (p.guard.held ++ p.rest)) ≡ whole
      pub future : Future (read_as p.guard.state p.guard.held) (p.rest ++ later) end

    pub in_ground-Passes :
        (skipped bytes : Bytes) (p : Pass)
        → All (λ b. (b == esc) ≡ false) skipped
        → ((b : ℕ) (rest : Bytes) → bytes ≡ b ∷ rest → (b == esc) ≡ true)
        → skipped ++ bytes ≡ p.rest
        → p.guard.state ≡ ground
        → Passes p
        → Passes (in_ground skipped bytes p)
    unfolding in_ground read_as advance
    in_ground-Passes skipped bytes p plain head split at t = go bytes head split
      where
        none_held : p.guard.held ≡ []
        none_held = subst (λ s. Idle s p.guard.held) at t.idle

        ahead : Future outside (p.rest ++ later) end
        ahead = subst (λ s. Future (read_as s p.guard.held) (p.rest ++ later) end) at t.future

        so_far : p.out ++ (p.pending ++ p.rest) ≡ whole
        so_far =
            subst (λ (h : Bytes). p.out ++ (p.pending ++ (h ++ p.rest)) ≡ whole) none_held
              t.nothing_lost

        beyond : (bytes : Bytes) → skipped ++ bytes ≡ p.rest → Future outside (bytes ++ later) end
        beyond bytes split =
            Future-rest outside outside skipped (bytes ++ later)
              (outside_stays whatever skipped plain).0
              (subst (λ (r : Bytes). Future outside r end)
                (ap (λ (r : Bytes). r ++ later) (sym split) ∙ append_assoc skipped bytes later)
                ahead)

        go :
            (bytes : Bytes)
            → ((b : ℕ) (rest : Bytes) → bytes ≡ b ∷ rest → (b == esc) ≡ true)
            → skipped ++ bytes ≡ p.rest
            → Passes (in_ground skipped bytes p)
        go [] head split = record {
          idle = t.idle;
          flushed = subst (λ s. FlushedIn s (p.pending ++ skipped)) (sym at) tt;
          nothing_lost =
              let all : skipped ≡ p.rest = sym (append-nil skipped) ∙ split in
              simp (none_held, append_assoc, append-nil, all) so_far;
          future =
              subst (λ s. Future (read_as s p.guard.held) later end) (sym at) (beyond [] split);
        }
        go (b ∷ rest) head split = record {
          idle = none_held;
          flushed = tt;
          nothing_lost =
              simp (none_held, append_assoc)
                (subst (λ (r : Bytes). p.out ++ (p.pending ++ r) ≡ whole) (sym split) so_far);
          future =
              Future-byte outside escaped b (rest ++ later) (rw (head b rest refl) refl)
                (beyond (b ∷ rest) split);
        }

    pub in_escape-Passes :
        (bytes : Bytes) (p : Pass)
        → bytes ≡ p.rest
        → p.guard.state ≡ escape
        → Passes p
        → Passes (in_escape bytes p)
    unfolding in_escape read_as advance
    in_escape-Passes [] p split at t = t
    in_escape-Passes (b ∷ rest) p split at t =
        let none_held : p.guard.held ≡ [] = subst (λ s. Idle s p.guard.held) at t.idle in
        let so_far : p.out ++ (p.pending ++ (b ∷ rest)) ≡ whole =
          subst (λ (h : Bytes). p.out ++ (p.pending ++ (h ++ b ∷ rest)) ≡ whole) none_held
            (subst (λ (r : Bytes). p.out ++ (p.pending ++ (p.guard.held ++ r)) ≡ whole) (sym split)
              t.nothing_lost) in
        let ahead : Future escaped (b ∷ (rest ++ later)) end =
          subst (λ s. Future (read_as s p.guard.held) ((b ∷ rest) ++ later) end) at
            (subst (λ (r : Bytes). Future (read_as p.guard.state p.guard.held) (r ++ later) end)
              (sym split) t.future) in
        let moved : p.out ++ ((p.pending ++ b ∷ []) ++ (p.guard.held ++ rest)) ≡ whole =
          simp (none_held, append_assoc) so_far in
        elim (Bool-cases (b == b']')) [
          | inl e ↦ rw e record {
            idle = tt;
            flushed = refl;
            nothing_lost = simp (none_held, append_assoc) so_far;
            future =
                rw none_held (Future-byte escaped (string []) b (rest ++ later) (rw e refl) ahead);
          }
          | inr e ↦ rw e (elim (Bool-cases (stays_escaped b)) [
            | inl s ↦
                let l : lingers b ≡ true = sym (stays_escaped-lingers b) ∙ s in
                rw s record {
                  idle = none_held;
                  flushed = tt;
                  nothing_lost = moved;
                  future = Future-byte escaped escaped b (rest ++ later) (rw e (rw l refl)) ahead;
                }
            | inr s ↦
                let l : lingers b ≡ false = sym (stays_escaped-lingers b) ∙ s in
                rw s record {
                  idle = none_held;
                  flushed = tt;
                  nothing_lost = moved;
                  future = Future-byte escaped outside b (rest ++ later) (rw e (rw l refl)) ahead;
                }
          ])
        ]

    -- A terminator lets the held body out.
    ended-Passes :
        (bytes : Bytes) (p : Pass)
        → ((b : ℕ) (rest : Bytes) → bytes ≡ b ∷ rest → ends_osc b ≡ true)
        → p.guard.state ≡ osc
        → p.pending ≡ []
        → p.out ++ (p.guard.held ++ bytes) ≡ whole
        → Future (string p.guard.held) (bytes ++ later) end
        → Passes (terminate osc bytes p)
    unfolding terminate read_as
    ended-Passes [] p head at empty so_far ahead = record {
      idle = subst (λ s. Idle s p.guard.held) (sym at) tt;
      flushed = subst (λ s. FlushedIn s p.pending) (sym at) empty;
      nothing_lost = rw empty so_far;
      future = subst (λ s. Future (read_as s p.guard.held) later end) (sym at) ahead;
    }
    ended-Passes (b ∷ rest) p head at empty so_far ahead = record {
      idle = after_osc-Idle b;
      flushed = after_osc-FlushedIn b (b ∷ []);
      nothing_lost = append_assoc p.out p.guard.held (b ∷ rest) ∙ so_far;
      future =
          Future-byte (string p.guard.held) (read_as (after_osc b) []) b (rest ++ later)
            (advance-ends whatever p.guard.held b (head b rest refl) ∙ after_osc-read_as b) ahead;
    }

    -- A body within its cap is held.
    pub osc-Passes :
        (body bytes : Bytes) (p : Pass)
        → All (λ b. ends_osc b ≡ false) body
        → ((b : ℕ) (rest : Bytes) → bytes ≡ b ∷ rest → ends_osc b ≡ true)
        → body ++ bytes ≡ p.rest
        → p.guard.state ≡ osc
        → p.pending ≡ []
        → Passes p
        → Passes (terminate (take_body body p).guard.state bytes (take_body body p))
    unfolding take_body read_as
    osc-Passes body bytes p plain head split at empty t =
        let held = p.guard.held in
        let so_far : p.out ++ (held ++ (body ++ bytes)) ≡ whole =
          subst (λ (q : Bytes). p.out ++ (q ++ (held ++ (body ++ bytes))) ≡ whole) empty
            (subst (λ (r : Bytes). p.out ++ (p.pending ++ (held ++ r)) ≡ whole) (sym split)
              t.nothing_lost) in
        let ahead : Future (string held) ((body ++ bytes) ++ later) end =
          subst (λ s. Future (read_as s held) ((body ++ bytes) ++ later) end) at
            (subst (λ (r : Bytes). Future (read_as p.guard.state held) (r ++ later) end) (sym split)
              t.future) in
        let beyond : Future (string (held ++ body)) (bytes ++ later) end =
          Future-rest (string held) (string (held ++ body)) body (bytes ++ later)
            (string_grows whatever held body plain
              ∙ ap (λ (r : Bytes). string (held ++ r)) (kept_all body))
            (subst (λ (r : Bytes). Future (string held) r end) (append_assoc body bytes later)
              ahead) in
        let within : length (held ++ body) ≤ limit (held ++ body) =
          Throughout-here whatever (string (held ++ body)) (bytes ++ later) beyond.0 in
        let e = fits held body within in
        rw e (
          rw (not_over held body e).0 (
            ended-Passes bytes
              (record p { guard = record { state = osc; held = held ++ body }; pending = [] }) head
              refl refl (ap (λ (r : Bytes). p.out ++ r) (append_assoc held body bytes) ∙ so_far)
              beyond))
