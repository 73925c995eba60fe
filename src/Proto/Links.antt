-- ===== src/Proto/Links.antt =====
-- crates/oxutrm-proto/src/link.rs: the OSC 8 link table. A URI is the list of its bytes.
pub mod Spec
use oxutrm.Base.{
  ℕ, Bool, not, ◌&&◌, ◌==◌, List, [], ◌∷◌, Option, none, some, ltb, leb, find, length,
  if◌then◌else◌, ok, err, ◌>>◌,
}
use oxutrm.Proto.Types.{
  TextField, max_link_uri, max_links, Checked, text_too_long, bad_link_uri, too_many_links,
  link_id_zero,
}

abbrev pub Uri : Type 0
Uri = List ℕ

-- `BTreeMap<u16, Arc<str>>`.
abbrev pub LinkTable : Type 0
LinkTable = List (ℕ × Uri)

abbrev pub is_bad_uri_byte : ℕ → Bool
is_bad_uri_byte b = not (leb 0x20 b && leb b 0x7e)

abbrev pub is_empty {ℓ} : {A : Type ℓ} → List A → Bool
is_empty [] = Bool.true
is_empty (_ ∷ _) = Bool.false

unfoldable pub check_link_uri : ℕ → Uri → Checked
check_link_uri id uri =
    if ltb max_link_uri (length uri)
    then err (text_too_long TextField.link_uri (length uri) max_link_uri)
    else if is_empty uri
    then err (bad_link_uri id none)
    else elim (find is_bad_uri_byte uri) [ some b ↦ err (bad_link_uri id (some b)) | none ↦ ok tt ]

-- The loop of `check_links`.
unfoldable pub check_entries : LinkTable → Checked
check_entries [] = ok tt
check_entries ((id, uri) ∷ links) =
    if id == 0 then err link_id_zero else (check_link_uri id uri >> check_entries links)

unfoldable pub check_links : LinkTable → Checked
check_links links =
    if ltb max_links (length links)
    then err (too_many_links (length links) max_links)
    else check_entries links
