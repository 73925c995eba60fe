-- ===== src/Program/Quality/Extremes.antt =====
-- The lowest and the highest round trip are those of the current link.
use mathlib.Core.List.{Memᴰ}
use oxutrm.Base.{
  ℕ, ◌≤◌, ◌≡◌, ◌⊎◌, refl, subst, inl, inr, List, [], ◌∷◌, min, max, All, dec_le, arith, false,
  members, Option, none, some, Bool-cases, Option-cases, ◌==◌, eq→==, ==→eq, All-map, sym,
}
use oxutrm.Program.Quality.{
  Quality, RttStats, lowest_of, highest_of, stats_of, answered, of_segment, current, rtt_stats,
  Sample,
}

lowest_of_lem :
    (m : ℕ) (rtts : List ℕ)
    → (lowest_of m rtts ≤ m)
      × All (λ r. lowest_of m rtts ≤ r) rtts
      × ((lowest_of m rtts ≡ m) ⊎ Memᴰ (lowest_of m rtts) rtts)
unfolding lowest_of
lowest_of_lem m [] = (omega arith, tt, inl refl)
lowest_of_lem m (r ∷ rtts) =
    let (le, below, found) = lowest_of_lem (min m r) rtts in
    (
      omega arith,
      (omega arith, below),
      elim found [
        | inl e ↦ elim (dec_le m r) [
          | yes le' ↦ inl (omega arith)
          | no gt ↦ inr (Memᴰ.head (omega arith))
        ]
        | inr m ↦ inr (Memᴰ.tail m)
      ],
    )

highest_of_lem :
    (m : ℕ) (rtts : List ℕ)
    → (m ≤ highest_of m rtts)
      × All (λ r. r ≤ highest_of m rtts) rtts
      × ((highest_of m rtts ≡ m) ⊎ Memᴰ (highest_of m rtts) rtts)
unfolding highest_of
highest_of_lem m [] = (omega arith, tt, inl refl)
highest_of_lem m (r ∷ rtts) =
    let (le, below, found) = highest_of_lem (max m r) rtts in
    (
      omega arith,
      (omega arith, below),
      elim found [
        | inl e ↦ elim (dec_le r m) [
          | yes le' ↦ inl (omega arith)
          | no gt ↦ inr (Memᴰ.head (omega arith))
        ]
        | inr m ↦ inr (Memᴰ.tail m)
      ],
    )

-- The extremes of some round trips: bounds on all of them, and two of them.
abbrev Extremes : RttStats → List ℕ → Type 0
Extremes stats rtts =
    All (λ r. (stats.lowest ≤ r) × (r ≤ stats.highest)) rtts
    × Memᴰ stats.lowest rtts
    × Memᴰ stats.highest rtts

both : (P Q : ℕ → Type 0) (xs : List ℕ) → All P xs → All Q xs → All (λ x. P x × Q x) xs
both P Q [] p q = tt
both P Q (x ∷ xs) p q = ((p.0, q.0), both P Q xs p.1 q.1)

stats_of-Extremes :
    (rtts : List ℕ) (stats : RttStats) → stats_of rtts ≡ some stats → Extremes stats rtts
unfolding stats_of
stats_of-Extremes [] stats h = absurd (cc)
stats_of-Extremes (r ∷ rtts) stats h =
    let (le, below, lowest) = lowest_of_lem r rtts in
    let (ge, above, highest) = highest_of_lem r rtts in
    let found : RttStats = record { lowest = lowest_of r rtts; highest = highest_of r rtts } in
    let is : found ≡ stats = cc in
    let bounds : Extremes found (r ∷ rtts) = (
      ((le, ge), both _ _ rtts below above),
      elim lowest [ inl e ↦ Memᴰ.head e | inr m ↦ Memᴰ.tail m ],
      elim highest [ inl e ↦ Memᴰ.head e | inr m ↦ Memᴰ.tail m ],
    ) in
    subst (λ s. Extremes s (r ∷ rtts)) is bounds

-- A sample of the link, taken outside an outage.
abbrev pub Counts : ℕ → Sample → Type 0
Counts segment s = (s.segment ≡ segment) × (s.outage ≡ false)

-- What the statistics say of a ring's samples: that none counts, or the extremes of those that do.
abbrev pub Bounds : Option RttStats → ℕ → List Sample → Type 0
Bounds none segment ring = All (λ s. ¬ Counts segment s) ring
Bounds (some stats) segment ring =
    All
      (λ s. ¬ Counts segment s ⊎ ((stats.lowest ≤ s.reading.rtt) × (s.reading.rtt ≤ stats.highest)))
      ring
    × ((s : Sample) × Memᴰ s ring × Counts segment s × (s.reading.rtt ≡ stats.lowest))
    × ((s : Sample) × Memᴰ s ring × Counts segment s × (s.reading.rtt ≡ stats.highest))

-- What holds of the answered round trips holds of every sample that counts.
answered-All :
    (P : ℕ → Type 0) (segment : ℕ) (ring : List Sample)
    → All P (answered (of_segment segment ring))
    → All (λ s. ¬ Counts segment s ⊎ P s.reading.rtt) ring
unfolding answered of_segment
answered-All P segment [] h = tt
answered-All P segment (s ∷ ring) h = elim (Bool-cases (s.segment == segment)) [
  | inl e ↦ elim (Bool-cases s.outage) [
    | inl o ↦ (inl (λ c. let u = c.1 in cc), answered-All P segment ring (rw o at (rw e at h)))
    | inr o ↦ let h' = (rw o at (rw e at h)) in (inr h'.0, answered-All P segment ring h'.1)
  ]
  | inr e ↦ (
    inl (λ c. let u = eq→== s.segment segment c.0 in cc),
    answered-All P segment ring (rw e at h),
  )
]

-- And what holds of the round trip of every sample that counts holds of the answered ones.
All-answered :
    (Q : ℕ → Type 0) (segment : ℕ) (ring : List Sample)
    → All (λ s. Counts segment s → Q s.reading.rtt) ring
    → All Q (answered (of_segment segment ring))
unfolding answered of_segment
All-answered Q segment [] h = tt
All-answered Q segment (s ∷ ring) h =
    let rest = All-answered Q segment ring h.1 in
    elim (Bool-cases (s.segment == segment)) [
      | inl e ↦ rw e (elim (Bool-cases s.outage) [
        | inl o ↦ rw o rest
        | inr o ↦ let first = h.0 (==→eq s.segment segment e, o) in rw o (first, rest)
      ])
      | inr e ↦ rw e rest
    ]

-- The round trip of a sample that counts.
abbrev Taken : ℕ → List Sample → ℕ → Type 0
Taken segment ring r = (s : Sample) × Memᴰ s ring × Counts segment s × (s.reading.rtt ≡ r)

answered-Taken :
    (segment : ℕ) (ring : List Sample)
    → All (Taken segment ring) (answered (of_segment segment ring))
answered-Taken segment ring =
    All-answered (Taken segment ring) segment ring
      (All-map ring (λ s m c. (s, m, c, refl)) (members ring))

pick : (P : ℕ → Type 0) {r : ℕ} {xs : List ℕ} → Memᴰ r xs → All P xs → P r
pick P (Memᴰ.head e) h = subst P (sym e) h.0
pick P (Memᴰ.tail m) h = pick P m h.1

unanswered : (rtts : List ℕ) → stats_of rtts ≡ none → rtts ≡ []
unfolding stats_of
unanswered [] h = refl
unanswered (r ∷ rtts) h = cc

nothing-Counts :
    (segment : ℕ) (ring : List Sample)
    → answered (of_segment segment ring) ≡ []
    → All (λ s. ¬ Counts segment s) ring
nothing-Counts segment ring h =
    All-map ring (λ s c. elim c [ inl not_it ↦ not_it | inr clash ↦ absurd clash ])
      (answered-All (λ r. ⊥) segment ring (rw h tt))

-- There are round-trip statistics exactly if the ring has a sample that the current link took outside
-- an outage. Then they bound the round trip of every such sample from both sides, and are each the
-- round trip of one.
pub rtt_stats-Bounds : (q : Quality) → Bounds (rtt_stats q) q.segment q.ring
unfolding rtt_stats current
rtt_stats-Bounds q = elim (Option-cases (stats_of (answered (of_segment q.segment q.ring)))) [
  | inl e ↦ rw e (nothing-Counts q.segment q.ring (unanswered _ e))
  | inr (stats, e) ↦
      let (bounds, lowest, highest) = stats_of-Extremes _ stats e in
      rw e (
        answered-All (λ r. (stats.lowest ≤ r) × (r ≤ stats.highest)) q.segment q.ring bounds,
        pick _ lowest (answered-Taken q.segment q.ring),
        pick _ highest (answered-Taken q.segment q.ring),
      )
]
