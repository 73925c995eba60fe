-- ===== src/Term/OscGuard/Steps.antt =====
-- Each part of a round keeps the guard and the parser that reads its output together.
use oxutrm.Base.{
  ℕ, ◌≡◌, refl, sym, ap, subst, ◌∙◌, true, false, inl, inr, [], ◌∷◌, ◌++◌, ◌==◌, if◌then◌else◌, All,
  All-append, Bool-cases, append_assoc, append-nil, arith, ==→eq, ◌⊎◌,
}
use oxutrm.Proto.Frame.{Bytes}
use oxutrm.Term.OscGuard.{
  ground, escape, osc, discard, Pass, ends_osc, is_over, in_ground, in_escape, take_body, terminate,
  after_osc, stays_escaped, esc, can, bel,
}
use oxutrm.Term.OscGuard.Reading.{
  Reading, outside, escaped, string, advance, Within, kept, outside_stays, advance-ends,
  stays_escaped-lingers, lingers, Throughout-Within,
}
use oxutrm.Term.OscGuard.Limits.{printable, not_over}
use oxutrm.Term.OscGuard.Trail.{
  abstracts, HoldsIn, FlushedIn, Trail, Trail-append, byte-Trail, held-Trail,
}

-- After a terminator nothing is stored, and nothing need be held.
module _ (b : ℕ) where
  after_osc-abstracts : (if b == esc then escaped else outside) ≡ abstracts (after_osc b)
  unfolding after_osc abstracts
  after_osc-abstracts = elim (Bool-cases (b == esc)) [ inl e ↦ rw e refl | inr e ↦ rw e refl ]

  bell_outside : (b == bel) ≡ true → abstracts (after_osc b) ≡ outside
  unfolding after_osc abstracts
  bell_outside h = elim (Bool-cases (b == esc)) [
    | inl e ↦ absurd (omega (arith, ==→eq b esc e, ==→eq b bel h))
    | inr e ↦ rw e refl
  ]

  after_osc-Within : Within (abstracts (after_osc b))
  unfolding after_osc abstracts
  after_osc-Within = elim (Bool-cases (b == esc)) [ inl e ↦ rw e tt | inr e ↦ rw e tt ]

  after_osc-HoldsIn : (held : Bytes) → held ≡ [] → HoldsIn (after_osc b) held
  unfolding after_osc
  after_osc-HoldsIn held h = elim (Bool-cases (b == esc)) [ inl e ↦ rw e h | inr e ↦ rw e h ]

  pub after_osc-FlushedIn : (pending : Bytes) → FlushedIn (after_osc b) pending
  unfolding after_osc
  after_osc-FlushedIn pending = elim (Bool-cases (b == esc)) [ inl e ↦ rw e tt | inr e ↦ rw e tt ]

module _ (first : Reading) where
  -- The guard and the parser, from the state `first` of the parser when the input began.
  pub record Tracks (p : Pass) : Type 0 where
    pub trail : Trail first (p.out ++ p.pending) (abstracts p.guard.state)
    pub flushed : FlushedIn p.guard.state p.pending
    pub holds : HoldsIn p.guard.state p.guard.held

  -- What is read when more is passed on unchanged, or handed over.
  pending-Trail :
      (v w : Reading) (out pending more : Bytes)
      → Trail first (out ++ pending) v
      → Trail v more w
      → Trail first (out ++ (pending ++ more)) w
  pending-Trail v w out pending more h k =
      subst (λ (r : Bytes). Trail first r w) (append_assoc out pending more)
        (Trail-append first v w (out ++ pending) more h k)

  pub in_ground-Tracks :
      (skipped bytes : Bytes) (p : Pass)
      → All (λ b. (b == esc) ≡ false) skipped
      → ((b : ℕ) (rest : Bytes) → bytes ≡ b ∷ rest → (b == esc) ≡ true)
      → p.guard.state ≡ ground
      → Tracks p
      → Tracks (in_ground skipped bytes p)
  unfolding in_ground abstracts advance
  in_ground-Tracks skipped [] p plain head at t = record {
    trail =
        subst (λ s. Trail first (p.out ++ (p.pending ++ skipped)) (abstracts s)) (sym at)
          (pending-Trail outside outside p.out p.pending skipped
            (subst (λ s. Trail first (p.out ++ p.pending) (abstracts s)) at t.trail)
            (outside_stays printable skipped plain));
    flushed = subst (λ s. FlushedIn s (p.pending ++ skipped)) (sym at) tt;
    holds = t.holds;
  }
  in_ground-Tracks skipped (b ∷ rest) p plain head at t = record {
    trail =
        pending-Trail outside escaped p.out p.pending (skipped ++ b ∷ [])
          (subst (λ s. Trail first (p.out ++ p.pending) (abstracts s)) at t.trail)
          (Trail-append outside outside escaped skipped (b ∷ [])
            (outside_stays printable skipped plain)
            (byte-Trail outside escaped b (rw (head b rest refl) refl) tt tt));
    flushed = tt;
    holds = subst (λ s. HoldsIn s p.guard.held) at t.holds;
  }

  pub in_escape-Tracks :
      (bytes : Bytes) (p : Pass) → p.guard.state ≡ escape → Tracks p → Tracks (in_escape bytes p)
  unfolding in_escape abstracts advance
  in_escape-Tracks [] p at t = t
  in_escape-Tracks (b ∷ rest) p at t =
      let before : Trail first (p.out ++ p.pending) escaped =
        subst (λ s. Trail first (p.out ++ p.pending) (abstracts s)) at t.trail in
      let none_held : p.guard.held ≡ [] = subst (λ s. HoldsIn s p.guard.held) at t.holds in
      elim (Bool-cases (b == b']')) [
        | inl e ↦ rw e record {
          trail =
              subst (λ (r : Bytes). Trail first r (string []))
                (sym (append-nil (p.out ++ (p.pending ++ b ∷ []))))
                (pending-Trail escaped (string []) p.out p.pending (b ∷ []) before
                  (byte-Trail escaped (string []) b (rw e refl) tt (omega arith)));
          flushed = refl;
          holds = rw none_held (tt, omega arith);
        }
        | inr e ↦ rw e (elim (Bool-cases (stays_escaped b)) [
          | inl s ↦
              let l : lingers b ≡ true = sym (stays_escaped-lingers b) ∙ s in
              rw s record {
                trail =
                    pending-Trail escaped escaped p.out p.pending (b ∷ []) before
                      (byte-Trail escaped escaped b (rw e (rw l refl)) tt tt);
                flushed = tt;
                holds = none_held;
              }
          | inr s ↦
              let l : lingers b ≡ false = sym (stays_escaped-lingers b) ∙ s in
              rw s record {
                trail =
                    pending-Trail escaped outside p.out p.pending (b ∷ []) before
                      (byte-Trail escaped outside b (rw e (rw l refl)) tt tt);
                flushed = tt;
                holds = none_held;
              }
        ])
      ]

  -- A terminator in an OSC: what is held goes out before it.
  pub after_osc-Tracks :
      (bytes : Bytes) (p : Pass)
      → ((b : ℕ) (rest : Bytes) → bytes ≡ b ∷ rest → ends_osc b ≡ true)
      → p.guard.state ≡ osc
      → Tracks p
      → Tracks (terminate osc bytes p)
  unfolding terminate abstracts
  after_osc-Tracks [] p head at t = record { trail = t.trail; flushed = t.flushed; holds = t.holds }
  after_osc-Tracks (b ∷ rest) p head at t =
      let empty : p.pending ≡ [] = subst (λ s. FlushedIn s p.pending) at t.flushed in
      let handed : Trail first (p.out ++ p.pending) (string []) =
        subst (λ s. Trail first (p.out ++ p.pending) (abstracts s)) at t.trail in
      let handed' : Trail first p.out (string []) =
        subst (λ (r : Bytes). Trail first r (string []))
          (ap (λ (r : Bytes). p.out ++ r) empty ∙ append-nil p.out) handed in
      let holding : HoldsIn osc p.guard.held = subst (λ s. HoldsIn s p.guard.held) at t.holds in
      let stored = kept printable p.guard.held in
      let released = held-Trail p.guard.held holding in
      let read =
        Trail-append first (string []) (string stored) p.out p.guard.held handed' released in
      let within : Within (string stored) =
        subst Within released.0 (Throughout-Within printable (string []) p.guard.held released.1) in
      let ended = advance-ends printable stored b (head b rest refl) ∙ after_osc-abstracts b in
      record {
        trail =
            Trail-append first (string stored) (abstracts (after_osc b)) (p.out ++ p.guard.held)
              (b ∷ []) read
              (byte-Trail (string stored) (abstracts (after_osc b)) b ended within
                (after_osc-Within b));
        flushed = after_osc-FlushedIn b (b ∷ []);
        holds = after_osc-HoldsIn b [] refl;
      }

  pub after_discard-Tracks :
      (bytes : Bytes) (p : Pass)
      → ((b : ℕ) (rest : Bytes) → bytes ≡ b ∷ rest → ends_osc b ≡ true)
      → p.guard.state ≡ discard
      → Tracks p
      → Tracks (terminate discard bytes p)
  unfolding terminate advance abstracts
  after_discard-Tracks [] p head at t = record {
    trail = t.trail;
    flushed = t.flushed;
    holds = t.holds;
  }
  after_discard-Tracks (b ∷ rest) p head at t =
      let empty : p.pending ≡ [] = subst (λ s. FlushedIn s p.pending) at t.flushed in
      let aborted : Trail first (p.out ++ p.pending) outside =
        subst (λ s. Trail first (p.out ++ p.pending) (abstracts s)) at t.trail in
      let none_held : p.guard.held ≡ [] = subst (λ s. HoldsIn s p.guard.held) at t.holds in
      elim (Bool-cases (b == bel)) [
        | inl e ↦
            let on : abstracts (after_osc b) ≡ outside = bell_outside b e in
            rw e record {
              trail =
                  subst (λ (r : Bytes). Trail first (p.out ++ r) (abstracts (after_osc b))) empty
                    (subst (Trail first (p.out ++ p.pending)) (sym on) aborted);
              flushed = after_osc-FlushedIn b [];
              holds = after_osc-HoldsIn b p.guard.held none_held;
            }
        | inr e ↦ rw e record {
          trail =
              subst (λ (r : Bytes). Trail first (p.out ++ (r ++ b ∷ [])) (abstracts (after_osc b)))
                empty
                (pending-Trail outside (abstracts (after_osc b)) p.out p.pending (b ∷ []) aborted (
                  byte-Trail outside (abstracts (after_osc b)) b (after_osc-abstracts b) tt
                    (after_osc-Within b)));
          flushed = after_osc-FlushedIn b (b ∷ []);
          holds = after_osc-HoldsIn b p.guard.held none_held;
        }
      ]

  -- A body is held, or the parser's OSC, which is still empty, is aborted.
  pub take_body-Tracks :
      (body : Bytes) (p : Pass)
      → All (λ b. ends_osc b ≡ false) body
      → p.guard.state ≡ osc
      → Tracks p
      → Tracks (take_body body p)
        × (((take_body body p).guard.state ≡ osc) ⊎ ((take_body body p).guard.state ≡ discard))
  unfolding take_body abstracts advance
  take_body-Tracks body p plain at t =
      let empty : p.pending ≡ [] = subst (λ s. FlushedIn s p.pending) at t.flushed in
      let handed : Trail first (p.out ++ p.pending) (string []) =
        subst (λ s. Trail first (p.out ++ p.pending) (abstracts s)) at t.trail in
      let holding : HoldsIn osc p.guard.held = subst (λ s. HoldsIn s p.guard.held) at t.holds in
      elim (Bool-cases (is_over p.guard.held body)) [
        | inl e ↦ rw e (
          record {
            trail =
                subst (λ (r : Bytes). Trail first r outside) (sym (append-nil (p.out ++ can ∷ [])))
                  (subst (λ (r : Bytes). Trail first (p.out ++ (r ++ can ∷ [])) outside) empty
                    (pending-Trail (string []) outside p.out p.pending (can ∷ []) handed
                      (byte-Trail (string []) outside can refl (omega arith) tt)));
            flushed = refl;
            holds = refl;
          },
          inr refl,
        )
        | inr e ↦ rw e (
          record {
            trail = subst (λ (r : Bytes). Trail first (p.out ++ r) (string [])) empty handed;
            flushed = refl;
            holds =
                let (whole, fits) = not_over p.guard.held body e in
                subst (HoldsIn osc) (sym whole)
                  (All-append (λ b. ends_osc b ≡ false) p.guard.held body holding.0 plain, fits);
          },
          inl refl,
        )
      ]
