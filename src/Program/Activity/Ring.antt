-- ===== src/Program/Activity/Ring.antt =====
-- What the ring keeps when it is full.
use oxutrm.Base.{
  ℕ, zero, suc, ◌≤◌, ◌<◌, ◌≡◌, refl, sym, ap, subst, ◌∙◌, ◌⊎◌, inl, inr, Bool, true, false, List,
  [], ◌∷◌, Option, none, some, ltb, ltb→lt, ltb→ge, lt→ltb, ge→ltb, length, All, if◌then◌else◌,
  Bool-cases, arith,
}
use oxutrm.Program.Activity.{
  Entry, ring_cap, keep_younger, without_detail, without_oldest, or_oldest, evict, shrink, push,
}

-- What the popup lists.
unfoldable pub listed : List Entry → List Entry
listed [] = []
listed (e ∷ older) = if e.detail then listed older else e ∷ listed older

abbrev pub NoDetail : Entry → Type 0
NoDetail e = e.detail ≡ false

length-without_oldest :
    (e : Entry) (older : List Entry)
    → suc (length (without_oldest (e ∷ older))) ≡ length (e ∷ older)
unfolding without_oldest
length-without_oldest e [] = refl
length-without_oldest e (d ∷ older) = ap suc (length-without_oldest d older)

chosen :
    (b : Bool) (older rest : List Entry)
    → (if b then some older else none) ≡ some rest
    → (b ≡ true) × (older ≡ rest)
chosen true older rest h = (refl, cc)
chosen false older rest h = absurd (cc)

unchosen : (b : Bool) (older : List Entry) → (if b then some older else none) ≡ none → b ≡ false
unchosen true older h = absurd (cc)
unchosen false older h = refl

listed_detail :
    (e : Entry) (older : List Entry) → e.detail ≡ true → listed (e ∷ older) ≡ listed older
unfolding listed
listed_detail e older d = ap (λ b. if b then listed older else e ∷ listed older) d

listed_cons :
    (e : Entry) (xs ys : List Entry) → listed xs ≡ listed ys → listed (e ∷ xs) ≡ listed (e ∷ ys)
unfolding listed
listed_cons e xs ys h = ap (λ r. if e.detail then r else e ∷ r) h

-- Without the oldest detail a ring is one shorter, and lists the same.
keep_younger-listed :
    (e : Entry) (older rest : List Entry) (o : Option (List Entry))
    → ((r : List Entry) → o ≡ some r → (suc (length r) ≡ length older) × (listed r ≡ listed older))
    → keep_younger e older o ≡ some rest
    → (suc (length rest) ≡ suc (length older)) × (listed rest ≡ listed (e ∷ older))
keep_younger-listed e older rest none below h =
    let (d, same) = chosen e.detail older rest h in
    (
      ap (λ (r : List Entry). suc (length r)) (sym same),
      ap listed (sym same) ∙ sym (listed_detail e older d),
    )
keep_younger-listed e older rest (some r) below h =
    let same : e ∷ r ≡ rest = cc in
    let (shorter, alike) = below r refl in
    (
      ap (λ (x : List Entry). suc (length x)) (sym same) ∙ ap suc shorter,
      ap listed (sym same) ∙ listed_cons e r older alike,
    )

without_detail-listed :
    (ring rest : List Entry)
    → without_detail ring ≡ some rest
    → (suc (length rest) ≡ length ring) × (listed rest ≡ listed ring)
unfolding without_detail
without_detail-listed [] rest h = absurd (cc)
without_detail-listed (e ∷ older) rest h =
    keep_younger-listed e older rest (without_detail older) (without_detail-listed older) h

keep_younger-none :
    (e : Entry) (older : List Entry) (o : Option (List Entry))
    → keep_younger e older o ≡ none
    → (o ≡ none) × NoDetail e
keep_younger-none e older none h = (refl, unchosen e.detail older h)
keep_younger-none e older (some r) h = absurd (cc)

without_detail-NoDetail : (ring : List Entry) → without_detail ring ≡ none → All NoDetail ring
unfolding without_detail
without_detail-NoDetail [] h = tt
without_detail-NoDetail (e ∷ older) h =
    let (none_older, plain) = keep_younger-none e older (without_detail older) h in
    (plain, without_detail-NoDetail older none_older)

-- A ring as it may be between two entries.
abbrev pub Fits : List Entry → Type 0
Fits ring = length ring ≤ ring_cap

push_room : (e : Entry) (ring : List Entry) → length ring < ring_cap → push e ring ≡ e ∷ ring
unfolding push shrink
push_room e ring h =
    ap (λ b. if b then shrink (length ring) (evict (e ∷ ring)) else e ∷ ring)
      (ge→ltb ring_cap (suc (length ring)) (omega arith))

shrink_done : (fuel : ℕ) (ring : List Entry) → Fits ring → shrink fuel ring ≡ ring
unfolding shrink
shrink_done zero ring h = refl
shrink_done (suc fuel) ring h =
    ap (λ b. if b then shrink fuel (evict ring) else ring) (ge→ltb ring_cap (length ring) h)

push_full :
    (e : Entry) (ring : List Entry)
    → length ring ≡ ring_cap
    → Fits (evict (e ∷ ring))
    → push e ring ≡ evict (e ∷ ring)
unfolding push shrink
push_full e ring h k =
    ap (λ b. if b then shrink (length ring) (evict (e ∷ ring)) else e ∷ ring)
      (lt→ltb ring_cap (suc (length ring)) (omega arith))
    ∙ shrink_done (length ring) (evict (e ∷ ring)) k

-- What a push onto a ring may come to.
abbrev Pushed : Entry → List Entry → Type 0
Pushed e ring =
    Fits (push e ring)
    × ((rest : List Entry) × (push e ring ≡ e ∷ rest))
    × ((listed (push e ring) ≡ listed (e ∷ ring))
        ⊎ ((length ring ≡ ring_cap) × All NoDetail ring × (push e ring ≡ e ∷ without_oldest ring)))

evict_oldest :
    (e : Entry) (ring : List Entry)
    → 0 < length ring
    → without_detail ring ≡ none
    → evict (e ∷ ring) ≡ e ∷ without_oldest ring
unfolding evict without_oldest
evict_oldest e [] h k = absurd (omega arith)
evict_oldest e (d ∷ older) h k = ap (or_oldest e (d ∷ older)) k

evict_detail :
    (e : Entry) (ring rest : List Entry)
    → without_detail ring ≡ some rest
    → evict (e ∷ ring) ≡ e ∷ rest
unfolding evict
evict_detail e ring rest k = ap (or_oldest e ring) k

oldest_shorter :
    (ring : List Entry) → 0 < length ring → suc (length (without_oldest ring)) ≡ length ring
oldest_shorter [] h = absurd (omega arith)
oldest_shorter (e ∷ older) h = length-without_oldest e older

push_into_full :
    (e : Entry) (ring : List Entry) (o : Option (List Entry))
    → length ring ≡ ring_cap
    → without_detail ring ≡ o
    → Pushed e ring
push_into_full e ring (some rest) h k =
    let (shorter, alike) = without_detail-listed ring rest k in
    let left = evict_detail e ring rest k in
    let fits : Fits (evict (e ∷ ring)) = subst Fits (sym left) (omega (arith, shorter, h)) in
    let is = push_full e ring h fits ∙ left in
    (
      subst Fits (sym is) (omega (arith, shorter, h)),
      (rest, is),
      inl (ap listed is ∙ listed_cons e rest ring alike),
    )
push_into_full e ring none h k =
    let shorter = oldest_shorter ring (omega (arith, h)) in
    let left = evict_oldest e ring (omega (arith, h)) k in
    let fits : Fits (evict (e ∷ ring)) = subst Fits (sym left) (omega (arith, shorter, h)) in
    let is = push_full e ring h fits ∙ left in
    (
      subst Fits (sym is) (omega (arith, shorter, h)),
      (without_oldest ring, is),
      inr (h, without_detail-NoDetail ring k, is),
    )

-- For a ring of at most 200 entries and any new one: the ring still has at most 200, the newest first;
-- what the popup lists loses nothing but gains the new entry, unless the ring is full with not one
-- detail in it, and then the oldest entry alone gives way.
pub push-listed :
    (e : Entry) (ring : List Entry)
    → Fits ring
    → Fits (push e ring)
      × ((rest : List Entry) × (push e ring ≡ e ∷ rest))
      × ((listed (push e ring) ≡ listed (e ∷ ring))
          ⊎ ((length ring ≡ ring_cap)
              × All NoDetail ring
              × (push e ring ≡ e ∷ without_oldest ring)))
push-listed e ring fits = elim (Bool-cases (ltb (length ring) ring_cap)) [
  | inl room ↦
      let lt = ltb→lt (length ring) ring_cap room in
      let is = push_room e ring lt in
      (subst Fits (sym is) (omega arith), (ring, is), inl (ap listed is))
  | inr full ↦
      let ge = ltb→ge (length ring) ring_cap full in
      push_into_full e ring (without_detail ring) (omega arith) refl
]
