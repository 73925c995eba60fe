-- ===== src/Proto/Text.antt =====
-- crates/oxutrm-proto/src/text.rs: a text is the list of its Unicode scalars.
pub mod Spec
pub mod Fit
use oxutrm.Base.{
  ℕ, ◌+◌, Bool, true, false, ◌&&◌, ◌||◌, ◌==◌, ◌≤◌, ◌≡◌, refl, List, [], ◌∷◌, Option, none, some,
  ltb, leb, find, if◌then◌else◌, ok, err, arith, Bool-cases, inl, inr, Result-cases, not,
}
use oxutrm.Proto.Types.{
  TextField, max_bytes, max_cell_text, max_title, Checked, text_too_long, control_in_text,
}

abbrev pub Text : Type 0
Text = List ℕ

-- `char::len_utf8`.
abbrev pub len_utf8 : ℕ → ℕ
len_utf8 c = if ltb c 0x80 then 1 else if ltb c 0x800 then 2 else if ltb c 0x10000 then 3 else 4

-- `str::len`: the bytes of the UTF-8 form.
abbrev pub byte_len : Text → ℕ
byte_len [] = 0
byte_len (c ∷ cs) = len_utf8 c + byte_len cs

unfoldable pub is_control_scalar : ℕ → Bool
is_control_scalar c = leb c 0x1f || c == 0x7f || (leb 0x80 c && leb c 0x9f)

unfoldable pub check_text : Text → TextField → Checked
check_text text field =
    if ltb (max_bytes field) (byte_len text)
    then err (text_too_long field (byte_len text) (max_bytes field))
    else elim (find is_control_scalar text) [
      | some c ↦ err (control_in_text field c)
      | none ↦ ok tt
    ]

unfoldable pub check_cell_text : Text → Checked
unfolding check_text
check_cell_text text = check_text text TextField.cell_text

unfoldable pub check_title : Text → Checked
unfolding check_text
check_title text = check_text text TextField.title

-- The loop of `fit`, `n` the bytes written so far.
fit_from : ℕ → ℕ → Text → Text
fit_from max n [] = []
fit_from max n (c ∷ cs) =
    let kept = c ∷ fit_from max (n + len_utf8 c) cs in
    let skipped = fit_from max n cs in
    if is_control_scalar c then skipped else if ltb max (n + len_utf8 c) then [] else kept

fit : Text → ℕ → Text
unfolding fit_from
fit text max = fit_from max 0 text

unfoldable pub fit_cell_text : Text → Text
unfolding check_cell_text fit
fit_cell_text text = elim (check_cell_text text) [ ok _ ↦ text | err _ ↦ fit text max_cell_text ]

unfoldable pub fit_title : Text → Text
unfolding check_title fit
fit_title text = elim (check_title text) [ ok _ ↦ text | err _ ↦ fit text max_title ]
