-- ===== src/Program/Quality/Segments.antt =====
-- No number is ever derived across two links.
use oxutrm.Base.{
  ℕ, zero, suc, ◌+◌, ◌≤◌, ◌<◌, ◌≡◌, refl, sym, ap, ap₂, subst, ◌∙◌, inl, inr, Bool, false, List, [],
  ◌∷◌, ◌++◌, min, ltb, ◌==◌, eq→==, ge→ltb, ltb→lt, ltb→ge, length, take, map, take_all,
  length-take-le, take-take, if◌then◌else◌, All, All-take, All-map, Bool-cases, arith,
}
use oxutrm.Program.Quality.{
  Reading, Sample, Quality, window, u32_max, without_oldest, trimmed, new, push, new_segment,
  of_segment, current,
}

-- What the session's loop tells the measurements.
pub data Event : Type 0 where
  measured : ℕ → Reading → Bool → Event
  carried : ℕ → Event

unfoldable pub told : Event → Quality → Quality
unfolding push new_segment
told (measured at reading outage) q = push at reading outage q
told (carried now) q = new_segment now q

-- Newest first.
unfoldable pub after : Quality → List Event → Quality
unfolding told
after q [] = q
after q (e ∷ events) = told e (after q events)

length-without_oldest :
    {A : Type 0} (x : A) (xs : List A) → without_oldest (x ∷ xs) ≡ take (length xs) (x ∷ xs)
unfolding without_oldest
length-without_oldest x [] = refl
length-without_oldest x (y ∷ xs) = ap (λ r. x ∷ r) (length-without_oldest y xs)

trimmed_done : {A : Type 0} (fuel : ℕ) (xs : List A) → length xs ≤ window → trimmed fuel xs ≡ xs
unfolding trimmed
trimmed_done zero xs h = refl
trimmed_done (suc fuel) xs h =
    ap (λ b. if b then trimmed fuel (without_oldest xs) else xs) (ge→ltb window (length xs) h)

-- A push keeps the newest sixty.
trimmed-take :
    {A : Type 0} (x : A) (xs : List A)
    → length xs ≤ window
    → trimmed (suc (length xs)) (x ∷ xs) ≡ take window (x ∷ xs)
unfolding trimmed
trimmed-take x xs h = elim (Bool-cases (ltb window (suc (length xs)))) [
  | inl over ↦
      let n : length xs ≡ window = omega (arith, ltb→lt window (suc (length xs)) over) in
      ap (λ b. if b then trimmed (length xs) (without_oldest (x ∷ xs)) else x ∷ xs) over
      ∙ ap (trimmed (length xs)) (length-without_oldest x xs ∙ ap (λ k. take k (x ∷ xs)) n)
      ∙ trimmed_done (length xs) (take window (x ∷ xs)) (length-take-le window (x ∷ xs))
  | inr room ↦
      let le = ltb→ge window (suc (length xs)) room in
      ap (λ b. if b then trimmed (length xs) (without_oldest (x ∷ xs)) else x ∷ xs) room
      ∙ sym (take_all window (x ∷ xs) (omega arith))
]

-- What a measurement leaves in the ring.
abbrev pub Measurement : Type 0
Measurement = ℕ × Reading × Bool

abbrev pub sampled : ℕ → Measurement → Sample
sampled segment (at, reading, outage) = record {
  at = at;
  reading = reading;
  segment = segment;
  outage = outage;
}

abbrev pub measure : Measurement → Event
measure (at, reading, outage) = measured at reading outage

-- The ring of a session: its samples are of links up to the current one.
record Numbered (q : Quality) (links : ℕ) : Type 0 where
  within : length q.ring ≤ window
  past : All (λ (s : Sample). s.segment ≤ q.segment) q.ring
  counted : q.segment ≤ links
  word : q.segment ≤ u32_max

push-ring :
    (at : ℕ) (reading : Reading) (outage : Bool) (q : Quality)
    → length q.ring ≤ window
    → (push at reading outage q).ring
      ≡ take window (sampled q.segment (at, reading, outage) ∷ q.ring)
unfolding push
push-ring at reading outage q h = trimmed-take (sampled q.segment (at, reading, outage)) q.ring h

told-Numbered :
    (e : Event) (q : Quality) (links : ℕ) → Numbered q links → Numbered (told e q) (suc links)
unfolding told new_segment
told-Numbered (measured at reading outage) q links h =
    let is = push-ring at reading outage q h.within in
    let s = sampled q.segment (at, reading, outage) in
    record {
      within =
          subst (λ (r : List Sample). length r ≤ window) (sym is)
            (length-take-le window (s ∷ q.ring));
      past = subst (All (λ (x : Sample). x.segment ≤ q.segment)) (sym is) (
          All-take (λ (x : Sample). x.segment ≤ q.segment) window (s ∷ q.ring)
            (omega arith, h.past));
      counted = omega (arith, h.counted);
      word = h.word;
    }
told-Numbered (carried now) q links h =
    let word = h.word in
    let counted = h.counted in
    let grows : q.segment ≤ min (q.segment + 1) u32_max = omega arith in
    record {
      within = h.within;
      past = All-map q.ring (λ s (le : s.segment ≤ q.segment). omega arith) h.past;
      counted = omega arith;
      word = omega arith;
    }

after-Numbered :
    (now : ℕ) (events : List Event) → Numbered (after (new now) events) (suc (length events))
unfolding after new
after-Numbered now [] = record {
  within = omega arith;
  past = tt;
  counted = omega arith;
  word = omega arith;
}
after-Numbered now (e ∷ events) =
    told-Numbered e (after (new now) events) (suc (length events)) (after-Numbered now events)

of_segment-take :
    (segment n : ℕ) (xs ys : List Sample)
    → All (λ (s : Sample). s.segment ≡ segment) xs
    → All (λ (s : Sample). s.segment < segment) ys
    → of_segment segment (take n (xs ++ ys)) ≡ take n xs
unfolding of_segment
of_segment-take segment zero xs ys h k = refl
of_segment-take segment (suc n) [] [] h k = refl
of_segment-take segment (suc n) [] (y ∷ ys) h k =
    ap (λ b. if b then y ∷ of_segment segment (take n ys) else of_segment segment (take n ys))
      (let e : (y.segment == segment) ≡ false = ground (arith, k.0) in e)
    ∙ of_segment-take segment n [] ys tt k.1
    ∙ (let e : take n [] ≡ [] = take_all n [] (omega arith) in e)
of_segment-take segment (suc n) (x ∷ xs) ys h k =
    ap
      (λ b.
        if b
        then x ∷ of_segment segment (take n (xs ++ ys))
        else of_segment segment (take n (xs ++ ys)))
      (eq→== x.segment segment h.0)
    ∙ ap (λ (r : List Sample). x ∷ r) (of_segment-take segment n xs ys h.1 k)

-- What measurements on one link leave in the ring, over what was there.
measured-ring :
    (q : Quality) (measurements : List Measurement)
    → length q.ring ≤ window
    → ((after q (map measure measurements)).ring
        ≡ take window (map (sampled q.segment) measurements ++ q.ring))
      × ((after q (map measure measurements)).segment ≡ q.segment)
unfolding after told
measured-ring q [] h = (sym (take_all window q.ring h), refl)
measured-ring q ((at, reading, outage) ∷ measurements) h =
    let (is, here) = measured-ring q measurements h in
    let q' = after q (map measure measurements) in
    let older = map (sampled q.segment) measurements ++ q.ring in
    let s = sampled q.segment (at, reading, outage) in
    let fits : length q'.ring ≤ window =
      subst (λ (r : List Sample). length r ≤ window) (sym is) (length-take-le window older) in
    (
      push-ring at reading outage q' fits
          ∙ ap₂ (λ n (r : List Sample). take window (sampled n (at, reading, outage) ∷ r)) here is
          ∙ cut s older,
      segment_kept at reading outage q' ∙ here,
    )
  where
    cut :
        (s : Sample) (older : List Sample)
        → take window (s ∷ take window older) ≡ take window (s ∷ older)
    cut s older = ap (λ (r : List Sample). s ∷ r) (take-take 59 window older (omega arith))

    segment_kept :
        (at : ℕ) (reading : Reading) (outage : Bool) (q : Quality)
        → (push at reading outage q).segment ≡ q.segment
    segment_kept at reading outage q = refl

sampled-All :
    (segment : ℕ) (measurements : List Measurement)
    → All (λ (s : Sample). s.segment ≡ segment) (map (sampled segment) measurements)
sampled-All segment [] = tt
sampled-All segment ((at, reading, outage) ∷ measurements) =
    (refl, sampled-All segment measurements)

-- For a session of at most 2^32 - 3 measurements and changes of its link so far: from the moment that
-- another connection carries it, what every number is derived from is exactly that
-- connection's own last sixty measurements, and nothing of the links before. So nothing is derived
-- before the first of them.
pub current-new_segment :
    (started now : ℕ) (events : List Event) (measurements : List Measurement)
    → length events + 2 ≤ u32_max
    → current (after (new_segment now (after (new started) events)) (map measure measurements))
      ≡ take window
          (map (sampled (new_segment now (after (new started) events)).segment) measurements)
unfolding current new_segment
current-new_segment started now events measurements h =
    let q = after (new started) events in
    let q' = new_segment now q in
    let numbered = after-Numbered started events in
    let few = numbered.counted in
    let next : q'.segment ≡ q.segment + 1 = omega arith in
    let (is, here) = measured-ring q' measurements numbered.within in
    ap₂ of_segment here is
    ∙ of_segment-take q'.segment window (map (sampled q'.segment) measurements) q.ring
        (sampled-All q'.segment measurements)
        (All-map q.ring (λ s (le : s.segment ≤ q.segment). omega arith) numbered.past)
