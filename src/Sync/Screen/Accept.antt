-- ===== src/Sync/Screen/Accept.antt =====
-- A diff of legal screens passes every check that `apply` makes before it applies anything.
use oxutrm.Base.{
  ◌*◌, ◌≤◌, ◌≡◌, refl, ap, sym, ◌∙◌, List, [], ◌∷◌, ◌++◌, none, some, ok, arith, length, if_pos,
  if_neg, ge→ltb, >>-eq-ok,
}
use oxutrm.Proto.Types.{Checked, max_links}
use oxutrm.Proto.Text.{check_title}
use oxutrm.Proto.Clipboard.{check_clipboard}
use oxutrm.Proto.Links.{LinkTable, check_entries}
use oxutrm.Sync.Screen.LinkDiff.{LinkChange, added, removed, link_changes, all_set}
use oxutrm.Sync.Screen.{ScreenDiff, if_new, or_old, if_some, check_changes, check_diff}

module _ {A : Type 0} (d : Discrete A) where
  -- A part that is sent only if it is new arrives either way.
  pub or_old-if_new : (new old : A) → or_old (if_new d new old) old ≡ new
  or_old-if_new new old = elim (d new old) [
    | yes e ↦ ap (λ o. or_old o old) (if_pos (d new old) e none (some new)) ∙ sym e
    | no e ↦ ap (λ o. or_old o old) (if_neg (d new old) e none (some new))
  ]

  pub if_some-if_new :
      (check : A → Checked) (new old : A)
      → check new ≡ ok tt
      → if_some check (if_new d new old) ≡ ok tt
  if_some-if_new check new old h = elim (d new old) [
    | yes e ↦ ap (if_some check) (if_pos (d new old) e none (some new))
    | no e ↦ ap (if_some check) (if_neg (d new old) e none (some new)) ∙ h
  ]

check_changes-append :
    (xs ys : List LinkChange)
    → check_changes xs ≡ ok tt
    → check_changes ys ≡ ok tt
    → check_changes (xs ++ ys) ≡ ok tt
unfolding check_changes
check_changes-append [] ys h k = k
check_changes-append (x ∷ xs) ys h k =
    let (a, b) = >>-eq-ok _ (check_changes xs) h in rw a (check_changes-append xs ys b k)

check_changes-added :
    (base t : LinkTable) → check_entries t ≡ ok tt → check_changes (added base t) ≡ ok tt
unfolding check_changes added check_entries
check_changes-added base [] h = refl
check_changes-added base ((id, uri) ∷ t) h = ground (arith, check_changes-added base t)

check_changes-removed :
    (t base : LinkTable) → check_entries base ≡ ok tt → check_changes (removed t base) ≡ ok tt
unfolding check_changes removed check_entries
check_changes-removed t [] h = refl
check_changes-removed t ((id, uri) ∷ base) h = ground (arith, check_changes-removed t base)

pub check_changes-link_changes :
    (t base : LinkTable)
    → check_entries t ≡ ok tt
    → check_entries base ≡ ok tt
    → check_changes (link_changes t base) ≡ ok tt
unfolding link_changes
check_changes-link_changes t base h k =
    check_changes-append (added base t) (removed t base) (check_changes-added base t h)
      (check_changes-removed t base k)

pub check_changes-all_set :
    (t : LinkTable) → check_entries t ≡ ok tt → check_changes (all_set t) ≡ ok tt
unfolding check_changes all_set check_entries
check_changes-all_set [] h = refl
check_changes-all_set ((id, uri) ∷ t) h = ground (arith, check_changes-all_set t)

pub check_diff-ok :
    (d : ScreenDiff)
    → if_some check_title d.title ≡ ok tt
    → if_some check_clipboard d.clipboard ≡ ok tt
    → length d.links ≤ 2 * max_links
    → check_changes d.links ≡ ok tt
    → check_diff d ≡ ok tt
unfolding check_diff
check_diff-ok d title clip few changes = rw title (rw clip (rw (ge→ltb _ _ few) changes))
