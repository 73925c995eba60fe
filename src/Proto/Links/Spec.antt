-- ===== src/Proto/Links/Spec.antt =====
-- Which link tables the checks of link.rs accept.
use mathlib.Core.Logic.{◌↔◌}
use oxutrm.Base.{
  ℕ, ◌≤◌, ◌≡◌, ◌≢◌, inl, inr, false, ◌==◌, [], ◌∷◌, All, ok, arith, length, Bool-cases,
  Option-cases, find, ge→ltb, refl, find-none-All, All-find-none, >>-eq-ok,
}
use oxutrm.Proto.Types.{max_links, max_link_uri}
use oxutrm.Proto.Links.{Uri, LinkTable, is_bad_uri_byte, check_link_uri, check_entries, check_links}

-- I10 for one URI.
abbrev pub IsUri : Uri → Type 0
IsUri uri = (length uri ≤ max_link_uri) × (uri ≢ []) × All (λ b. (0x20 ≤ b) × (b ≤ 0x7e)) uri

abbrev pub IsEntry : ℕ × Uri → Type 0
IsEntry (id, uri) = (id ≢ 0) × IsUri uri

good_byte_there : (b : ℕ) → is_bad_uri_byte b ≡ false → (0x20 ≤ b) × (b ≤ 0x7e)
good_byte_there b h = ground arith

good_byte_back : (b : ℕ) → (0x20 ≤ b) × (b ≤ 0x7e) → is_bad_uri_byte b ≡ false
good_byte_back b h = ground arith

good_bytes_there :
    (u : Uri) → All (λ b. is_bad_uri_byte b ≡ false) u → All (λ b. (0x20 ≤ b) × (b ≤ 0x7e)) u
good_bytes_there [] h = tt
good_bytes_there (b ∷ u) h = (good_byte_there b h.0, good_bytes_there u h.1)

good_bytes_back :
    (u : Uri) → All (λ b. (0x20 ≤ b) × (b ≤ 0x7e)) u → All (λ b. is_bad_uri_byte b ≡ false) u
good_bytes_back [] h = tt
good_bytes_back (b ∷ u) h = (good_byte_back b h.0, good_bytes_back u h.1)

uri_there : (id : ℕ) (u : Uri) → check_link_uri id u ≡ ok tt → IsUri u
unfolding check_link_uri
uri_there id [] h = absurd (ground arith)
uri_there id (b ∷ u) h = elim (Option-cases (find is_bad_uri_byte (b ∷ u))) [
  | inl e ↦
      (ground arith, λ same. cc, good_bytes_there (b ∷ u) (find-none-All is_bad_uri_byte (b ∷ u) e))
  | inr (x, e) ↦ absurd (ground arith)
]

uri_back : (id : ℕ) (u : Uri) → IsUri u → check_link_uri id u ≡ ok tt
unfolding check_link_uri
uri_back id [] h = absurd (h.1 refl)
uri_back id (b ∷ u) h =
    let e = All-find-none is_bad_uri_byte (b ∷ u) (good_bytes_back (b ∷ u) h.2) in
    rw (ge→ltb _ _ h.0) (rw e refl)

pub entries_iff : (links : LinkTable) → (check_entries links ≡ ok tt) ↔ All IsEntry links
unfolding check_entries
entries_iff [] = (λ _. tt, λ _. refl)
entries_iff ((id, uri) ∷ links) = (there (entries_iff links).0, back (entries_iff links).1)
  where
    there :
        (check_entries links ≡ ok tt → All IsEntry links)
        → check_entries ((id, uri) ∷ links) ≡ ok tt
        → All IsEntry ((id, uri) ∷ links)
    there rest h = elim (Bool-cases (id == 0)) [
      | inl z ↦ absurd (let clash = (rw z at h) in cc)
      | inr nz ↦
          let (a, b) = >>-eq-ok (check_link_uri id uri) _ (rw nz at h) in
          ((ground arith, uri_there id uri a), rest b)
    ]

    back :
        (All IsEntry links → check_entries links ≡ ok tt)
        → All IsEntry ((id, uri) ∷ links)
        → check_entries ((id, uri) ∷ links) ≡ ok tt
    back rest h =
        let nz : (id == 0) ≡ false = ground (arith, h.0.0) in
        rw nz (rw (uri_back id uri h.0.1) (rest h.1))

pub links_iff :
    (links : LinkTable)
    → (check_links links ≡ ok tt) ↔ (length links ≤ max_links) × All IsEntry links
unfolding check_links
links_iff links = (
  λ h. (ground arith, (entries_iff links).0 (ground arith)),
  λ h. rw (ge→ltb _ _ h.0) ((entries_iff links).1 h.1),
)
