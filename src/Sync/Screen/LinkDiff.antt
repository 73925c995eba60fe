-- ===== src/Sync/Screen/LinkDiff.antt =====
-- crates/oxutrm-sync/src/screen.rs, `link_changes` and how `apply` uses them.
pub mod Laws
use oxutrm.Base.{
  ℕ, ℕ_discrete, Bool, true, false, List, [], ◌∷◌, ◌++◌, Option, none, some, if◌then◌else◌, ite,
}
use oxutrm.Base.SortedMap.{get, insert, remove}
use oxutrm.Proto.Links.{Uri, LinkTable}

abbrev pub LinkChange : Type 0
LinkChange = ℕ × Option Uri

pub Uri-discrete : Discrete Uri
Uri-discrete = hlevel ℕ_discrete

abbrev pub holds : Option Uri → Uri → Bool
holds none uri = false
holds (some old) uri = ite (Uri-discrete old uri) true false

abbrev pub is_some : Option Uri → Bool
is_some none = false
is_some (some _) = true

-- The entries of the target that the base does not hold as they are.
unfoldable pub added : LinkTable → LinkTable → List LinkChange
added base [] = []
added base ((id, uri) ∷ target) =
    if holds (get id base) uri then added base target else (id, some uri) ∷ added base target

-- The keys of the base that the target has not.
unfoldable pub removed : LinkTable → LinkTable → List LinkChange
removed target [] = []
removed target ((id, _) ∷ base) =
    if is_some (get id target) then removed target base else (id, none) ∷ removed target base

unfoldable pub link_changes : LinkTable → LinkTable → List LinkChange
unfolding added removed
link_changes target base = added base target ++ removed target base

unfoldable pub all_set : LinkTable → List LinkChange
all_set [] = []
all_set ((id, uri) ∷ links) = (id, some uri) ∷ all_set links

unfoldable pub apply_links : LinkTable → List LinkChange → LinkTable
apply_links links [] = links
apply_links links ((id, some uri) ∷ changes) = apply_links (insert id uri links) changes
apply_links links ((id, none) ∷ changes) = apply_links (remove id links) changes
