-- ===== src/Net/Ice/Best.antt =====
-- The best pair is validated, admitted, and outranked by none.
use oxutrm.Base.{
  ℕ, ◌≤◌, ◌≡◌, refl, sym, subst, ◌⊎◌, inl, inr, Bool, true, ◌&&◌, [], ◌∷◌, Option, none, some, ltb,
  ltb→lt, ltb→ge, All, All-map, Bool-cases, arith,
}
use oxutrm.Proto.Addr.{SocketAddr, place, precedes}
use oxutrm.Net.Ice.Tables.{PairState, Pairs, validated, admits, better, or_better, best}

abbrev Entry : Type 0
Entry = SocketAddr × PairState

-- One of the two, and at least as good as both.
better_cases :
    (p q : Entry)
    → ((better p q ≡ p) ⊎ (better p q ≡ q))
      × (p.1.priority ≤ (better p q).1.priority)
      × (q.1.priority ≤ (better p q).1.priority)
unfolding better
better_cases (a, s) (b, t) = elim (Bool-cases (ltb t.priority s.priority)) [
  | inl e ↦ let lt = ltb→lt t.priority s.priority e in rw e (inl refl, omega arith, omega arith)
  | inr e ↦
      let ge = ltb→ge t.priority s.priority e in
      rw e (elim (Bool-cases (ltb s.priority t.priority)) [
        | inl k ↦ rw k (inr refl, omega arith, omega arith)
        | inr k ↦
            let le = ltb→ge s.priority t.priority k in
            rw k (elim (Bool-cases (precedes (place a) (place b))) [
              | inl l ↦ rw l (inl refl, omega arith, omega arith)
              | inr l ↦ rw l (inr refl, omega arith, omega arith)
            ])
      ])
]

module _ (filter : Option (SocketAddr → Bool)) where
  -- A pair that may be nominated.
  abbrev pub Eligible : Entry → Type 0
  Eligible p = (validated p.1 ≡ true) × (admits filter p.0 ≡ true)

  -- A pair that is no better.
  abbrev pub Outranked : ℕ → Entry → Type 0
  Outranked top p = validated p.1 && admits filter p.0 ≡ true → p.1.priority ≤ top

  eligible : (p : Entry) → validated p.1 && admits filter p.0 ≡ true → Eligible p
  eligible (a, s) h = ground (arith, h)

  best-none : (pairs : Pairs) (top : ℕ) → best filter pairs ≡ none → All (Outranked top) pairs
  unfolding best
  best-none [] top h = tt
  best-none ((a, s) ∷ pairs) top h = elim (Bool-cases (validated s && admits filter a)) [
    | inl e ↦ absurd (let clash = (rw e at h) in cc)
    | inr e ↦ ((λ k. absurd (cc)), best-none pairs top (rw e at h))
  ]

  module _ (P : Entry → Type 0) where
    or_better_sound :
        (p : Entry) (rest : Option Entry) (pairs : Pairs) (q : Entry)
        → best filter pairs ≡ rest
        → or_better p rest ≡ q
        → P p
        → Eligible p
        → ((r : Entry) → rest ≡ some r → P r × Eligible r × All (Outranked r.1.priority) pairs)
        → P q × Eligible q × (p.1.priority ≤ q.1.priority) × All (Outranked q.1.priority) pairs
    or_better_sound p none pairs q e is h k below =
        subst
          (λ r.
            P r × Eligible r × (p.1.priority ≤ r.1.priority) × All (Outranked r.1.priority) pairs)
          is (h, k, omega arith, best-none pairs p.1.priority e)
    or_better_sound p (some r) pairs q e is h k below =
        let (choice, above, above') = better_cases p r in
        let (h', k', top) = below r refl in
        subst
          (λ r.
            P r × Eligible r × (p.1.priority ≤ r.1.priority) × All (Outranked r.1.priority) pairs)
          is
          (
            elim choice [ inl c ↦ subst P (sym c) h | inr c ↦ subst P (sym c) h' ],
            elim choice [ inl c ↦ subst Eligible (sym c) k | inr c ↦ subst Eligible (sym c) k' ],
            above,
            All-map pairs
                (λ (x : Entry) (o : Outranked r.1.priority x). (λ g. let w = o g in omega arith))
                top,
          )

    pub best_sound :
        (pairs : Pairs) (q : Entry)
        → best filter pairs ≡ some q
        → All P pairs
        → P q × Eligible q × All (Outranked q.1.priority) pairs
    unfolding best
    best_sound [] q e h = absurd (cc)
    best_sound ((a, s) ∷ pairs) q e h = elim (Bool-cases (validated s && admits filter a)) [
      | inl k ↦
          let found : some (or_better (a, s) (best filter pairs)) ≡ some q = (rw k at e) in
          let (p, el, above, top) =
            or_better_sound (a, s) (best filter pairs) pairs q refl (cc) h.0 (eligible (a, s) k)
              (λ r m. best_sound pairs r m h.1) in
          (p, el, ((λ g. above), top))
      | inr k ↦
          let (p, el, top) = best_sound pairs q (rw k at e) h.1 in
          (p, el, ((λ g. absurd (cc)), top))
    ]
