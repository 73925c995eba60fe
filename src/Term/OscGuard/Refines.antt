-- ===== src/Term/OscGuard/Refines.antt =====
-- The guard's state follows the parser that reads its output, which never stores an OSC over its cap.
use oxutrm.Base.{
  ℕ, ◌≡◌, refl, sym, ap, subst, ◌∙◌, inl, inr, List, [], ◌∷◌, ◌++◌, ◌==◌, length, arith,
}
use oxutrm.Proto.Frame.{Bytes}
use oxutrm.Term.OscGuard.{
  State, ground, escape, osc, discard, OscGuard, Pass, before, onward, ends_osc, take_body,
  skip_body, terminate, round_in, round, begin, feed, feed_all, new, esc,
}
use oxutrm.Term.OscGuard.Reading.{
  Reading, outside, advance, read_all, Within, Throughout, before-All, onward_head,
}
use oxutrm.Term.OscGuard.Limits.{printable}
use oxutrm.Term.OscGuard.Rounds.{rounds-keep}
use oxutrm.Term.OscGuard.Trail.{abstracts, HoldsIn, FlushedIn, Trail, Trail-append}
use oxutrm.Term.OscGuard.Steps.{
  Tracks, in_ground-Tracks, in_escape-Tracks, after_osc-Tracks, after_discard-Tracks,
  take_body-Tracks,
}

-- What osc_guard.rs relies on of the parser behind it.
pub record Parser : Type 1 where
  pub Vte : Type 0
  pub start : Vte
  pub read : Vte → ℕ → Vte
  pub reading : Vte → Reading
  pub starts : reading start ≡ outside
  pub reads : (v : Vte) (b : ℕ) → reading (read v b) ≡ advance printable (reading v) b

module _ (parser : Parser) where
  open parser use {Vte, read, reading, reads}

  unfoldable pub parse : Vte → Bytes → Vte
  parse v [] = v
  parse v (b ∷ bytes) = parse (read v b) bytes

  -- At all times the OSC that the parser stores is within the cap for its number.
  unfoldable pub Bounded : Vte → Bytes → Type 0
  Bounded v [] = Within (reading v)
  Bounded v (b ∷ bytes) = Within (reading v) × Bounded (read v b) bytes

  parse_reads :
      (v : Vte) (bytes : Bytes) → reading (parse v bytes) ≡ read_all printable (reading v) bytes
  unfolding parse read_all
  parse_reads v [] = refl
  parse_reads v (b ∷ bytes) =
      parse_reads (read v b) bytes ∙ ap (λ (r : Reading). read_all printable r bytes) (reads v b)

  Throughout-Bounded :
      (v : Vte) (bytes : Bytes) → Throughout printable (reading v) bytes → Bounded v bytes
  unfolding Bounded Throughout
  Throughout-Bounded v [] h = h
  Throughout-Bounded v (b ∷ bytes) h = (
    h.0,
    Throughout-Bounded (read v b) bytes
        (subst (λ (r : Reading). Throughout printable r bytes) (sym (reads v b)) h.1),
  )

module _ (first : Reading) where
  round_in-Tracks :
      (s : State) (p : Pass) → p.guard.state ≡ s → Tracks first p → Tracks first (round_in s p)
  unfolding round_in skip_body
  round_in-Tracks ground p at t =
      in_ground-Tracks first (before (λ b. b == esc) p.rest) (onward (λ b. b == esc) p.rest) p
        (before-All (λ b. b == esc) p.rest) (onward_head (λ b. b == esc) p.rest) at t
  round_in-Tracks escape p at t = in_escape-Tracks first p.rest p at t
  round_in-Tracks osc p at t =
      let body = before ends_osc p.rest in
      let p' = take_body body p in
      let bytes = onward ends_osc p.rest in
      let (kept_up, state) = take_body-Tracks first body p (before-All ends_osc p.rest) at t in
      elim state [
        | inl e ↦
            subst (λ s. Tracks first (terminate s bytes p')) (sym e)
              (after_osc-Tracks first bytes p' (onward_head ends_osc p.rest) e kept_up)
        | inr e ↦
            subst (λ s. Tracks first (terminate s bytes p')) (sym e)
              (after_discard-Tracks first bytes p' (onward_head ends_osc p.rest) e kept_up)
      ]
  round_in-Tracks discard p at t =
      let p' = skip_body p in
      let bytes = onward ends_osc p.rest in
      let empty : p.pending ≡ [] = subst (λ s. FlushedIn s p.pending) at t.flushed in
      let kept_up : Tracks first p' = record {
        trail =
            subst (λ (r : Bytes). Trail first (p.out ++ r) (abstracts p.guard.state)) empty t.trail;
        flushed = subst (λ s. FlushedIn s []) (sym at) refl;
        holds = t.holds;
      } in
      subst (λ s. Tracks first (terminate s bytes p')) (sym at)
        (after_discard-Tracks first bytes p' (onward_head ends_osc p.rest) at kept_up)

begun_calm : (s : State) → Within (abstracts s) × FlushedIn s []
unfolding abstracts
begun_calm ground = (tt, tt)
begun_calm escape = (tt, tt)
begun_calm osc = (omega arith, refl)
begun_calm discard = (tt, refl)

feed_follows :
    (g : OscGuard) (input : Bytes)
    → HoldsIn g.state g.held
    → Trail (abstracts g.state) (feed g input).1 (abstracts (feed g input).0.state)
      × HoldsIn (feed g input).0.state (feed g input).0.held
unfolding feed begin read_all Throughout round
feed_follows g input h =
    let first = abstracts g.state in
    let at_first : Tracks first (begin g input) = record {
      trail = (refl, (begun_calm g.state).0);
      flushed = (begun_calm g.state).1;
      holds = h;
    } in
    let t =
      rounds-keep (Tracks first) (λ p k. round_in-Tracks first p.guard.state p refl k)
        (length input) (begin g input) at_first in
    (t.trail, t.holds)

feed_all_follows :
    (g : OscGuard) (inputs : List Bytes)
    → HoldsIn g.state g.held
    → Trail (abstracts g.state) (feed_all g inputs).1 (abstracts (feed_all g inputs).0.state)
      × HoldsIn (feed_all g inputs).0.state (feed_all g inputs).0.held
unfolding feed_all read_all Throughout
feed_all_follows g [] h = ((refl, (begun_calm g.state).0), h)
feed_all_follows g (input ∷ inputs) h =
    let (trail, holds) = feed_follows g input h in
    let (trails, held) = feed_all_follows (feed g input).0 inputs holds in
    (
      Trail-append (abstracts g.state) (abstracts (feed g input).0.state)
          (abstracts (feed_all (feed g input).0 inputs).0.state) (feed g input).1
          (feed_all (feed g input).0 inputs).1 trail trails,
      held,
    )

-- For any parser that reads OSC strings as the guard's documentation says that vte does, and for a
-- child's output that arrives in any pieces: at every byte of what the guard passes on, the OSC that
-- the parser is storing is within the cap for its number, 2 KiB for a title, 4 KiB for a link and
-- 512 KiB for any other. The parser is then in the state that the guard's own stands for, with nothing
-- stored, and what the guard holds is within its cap, and nothing outside an OSC.
pub guard_protects :
    (parser : Parser) (inputs : List Bytes)
    → Bounded parser parser.start (feed_all new inputs).1
      × (parser.reading (parse parser parser.start (feed_all new inputs).1)
          ≡ abstracts (feed_all new inputs).0.state)
      × HoldsIn (feed_all new inputs).0.state (feed_all new inputs).0.held
unfolding new abstracts
guard_protects parser inputs =
    let out = (feed_all new inputs).1 in
    let ((follows, calm), holds) = feed_all_follows new inputs refl in
    (
      Throughout-Bounded parser parser.start out
          (subst (λ (r : Reading). Throughout printable r out) (sym parser.starts) calm),
      parse_reads parser parser.start out
          ∙ ap (λ (r : Reading). read_all printable r out) parser.starts
          ∙ follows,
      holds,
    )
