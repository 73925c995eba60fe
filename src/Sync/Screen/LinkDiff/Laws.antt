-- ===== src/Sync/Screen/LinkDiff/Laws.antt =====
-- The link changes turn the base's table into the target's.
use oxutrm.Base.{
  ℕ, suc, ◌≤◌, ◌+◌, ◌≡◌, refl, sym, ap, ◌∙◌, true, false, not, ◌&&◌, List, [], ◌∷◌, ◌++◌, Option,
  none, some, if◌then◌else◌, arith, Bool-cases, inl, inr, length, length-append, if_neg,
}
use oxutrm.Base.SortedMap.{
  get, insert, remove, IsSorted, Above-IsSorted, get-Above, get-insert, get-remove, insert-IsSorted,
  remove-IsSorted, get_ext,
}
use oxutrm.Proto.Links.{Uri, LinkTable}
use oxutrm.Sync.Screen.LinkDiff.{
  LinkChange, Uri-discrete, holds, is_some, added, removed, link_changes, all_set, apply_links,
}

holds-eq : (o : Option Uri) (u : Uri) → holds o u ≡ true → o ≡ some u
holds-eq none u h = cc
holds-eq (some v) u h = elim (Uri-discrete v u) [
  | yes e ↦ ap some e
  | no e ↦ let clash : true ≡ false = sym h ∙ if_neg (Uri-discrete v u) e true false in cc
]

apply_links-append :
    (m : LinkTable) (xs ys : List LinkChange)
    → apply_links m (xs ++ ys) ≡ apply_links (apply_links m xs) ys
unfolding apply_links
apply_links-append m [] ys = refl
apply_links-append m ((id, some uri) ∷ xs) ys = apply_links-append (insert id uri m) xs ys
apply_links-append m ((id, none) ∷ xs) ys = apply_links-append (remove id m) xs ys

pub apply_links-IsSorted :
    (m : LinkTable) (xs : List LinkChange) → IsSorted m → IsSorted (apply_links m xs)
unfolding apply_links
apply_links-IsSorted m [] s = s
apply_links-IsSorted m ((id, some uri) ∷ xs) s =
    apply_links-IsSorted (insert id uri m) xs (insert-IsSorted id uri m s)
apply_links-IsSorted m ((id, none) ∷ xs) s =
    apply_links-IsSorted (remove id m) xs (remove-IsSorted id m s)

-- What an entry becomes under `added`.
abbrev merged : Option Uri → Option Uri → Option Uri → Option Uri
merged none base old = old
merged (some u) base old = if holds base u then old else some u

get-added :
    (j : ℕ) (base m t : LinkTable)
    → IsSorted t
    → get j (apply_links m (added base t)) ≡ merged (get j t) (get j base) (get j m)
unfolding added apply_links get
get-added j base m [] s = refl
get-added j base m ((id, uri) ∷ t) s = elim (Bool-cases (holds (get id base) uri)) [
  | inl e ↦ rw e (
      ground (
        arith,
        get-added j base m t (Above-IsSorted id t s),
        get-Above j id t s,
        holds-eq (get id base) uri,
      ))
  | inr e ↦ rw e (
      ground (
        arith,
        get-added j base (insert id uri m) t (Above-IsSorted id t s),
        get-Above j id t s,
        get-insert j id uri m,
      ))
]

get-removed :
    (j : ℕ) (t m b : LinkTable)
    → IsSorted m
    → get j (apply_links m (removed t b))
      ≡ (if is_some (get j b) && not (is_some (get j t)) then none else get j m)
unfolding removed apply_links get
get-removed j t m [] s = refl
get-removed j t m ((id, uri) ∷ b) s = elim (Bool-cases (is_some (get id t))) [
  | inl e ↦ rw e (ground (arith, get-removed j t m b s))
  | inr e ↦ rw e (
      ground (arith, get-removed j t (remove id m) b (remove-IsSorted id m s), get-remove j id m s))
]

get-all_set :
    (j : ℕ) (m t : LinkTable)
    → IsSorted t
    → get j (apply_links m (all_set t)) ≡ merged (get j t) none (get j m)
unfolding all_set apply_links get
get-all_set j m [] s = refl
get-all_set j m ((id, uri) ∷ t) s = ground (
  arith,
  get-all_set j (insert id uri m) t (Above-IsSorted id t s),
  get-Above j id t s,
  get-insert j id uri m,
)

module _ (target base : LinkTable) (ts : IsSorted target) where
  get-link_changes :
      IsSorted base → (j : ℕ) → get j (apply_links base (link_changes target base)) ≡ get j target
  unfolding link_changes
  get-link_changes bs j =
      ap (get j) (apply_links-append base (added base target) (removed target base))
      ∙ ground (
        arith,
        get-removed j target (apply_links base (added base target)) base
            (apply_links-IsSorted base (added base target) bs),
        get-added j base base target ts,
        holds-eq (get j base),
      )

  -- For two tables whose keys ascend, the changes from the base to the target, applied to the base in
  -- order, give the target.
  pub apply_links-link_changes :
      IsSorted base → apply_links base (link_changes target base) ≡ target
  apply_links-link_changes bs =
      get_ext _ target (apply_links-IsSorted base (link_changes target base) bs) ts
        (get-link_changes bs)

  get-full : (j : ℕ) → get j (apply_links [] (all_set target)) ≡ get j target
  unfolding get
  get-full j = ground (arith, get-all_set j [] target ts)

  pub apply_links-all_set : apply_links [] (all_set target) ≡ target
  apply_links-all_set = get_ext _ target (apply_links-IsSorted [] (all_set target) tt) ts get-full

length-added : (base t : LinkTable) → length (added base t) ≤ length t
unfolding added
length-added base [] = omega arith
length-added base ((id, uri) ∷ t) = ground (arith, length-added base t)

length-removed : (t b : LinkTable) → length (removed t b) ≤ length b
unfolding removed
length-removed t [] = omega arith
length-removed t ((id, uri) ∷ b) = ground (arith, length-removed t b)

pub length-link_changes : (t b : LinkTable) → length (link_changes t b) ≤ length t + length b
unfolding link_changes
length-link_changes t b =
    omega (arith, length-append (added b t) (removed t b), length-added b t, length-removed t b)

pub length-all_set : (t : LinkTable) → length (all_set t) ≡ length t
unfolding all_set
length-all_set [] = refl
length-all_set ((id, uri) ∷ t) = ap suc (length-all_set t)
