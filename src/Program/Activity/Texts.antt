-- ===== src/Program/Activity/Texts.antt =====
-- What is recorded can be shown and written.
use oxutrm.Base.{
  ◌+◌, ◌≤◌, ◌≡◌, refl, false, inl, inr, List, [], ◌∷◌, ◌++◌, Option, none, some, leb, length, All,
  All-append, Bool-cases,
}
use oxutrm.Proto.Text.{Text, is_control_scalar}
use oxutrm.Client.Legible.{legible, lines, trim, first_line, summarised, reason_shown}
use oxutrm.Client.Legible.Safe.{Harmless, legible-Harmless, cut_at-Harmless}
use oxutrm.Program.Activity.{
  Note, entry_of, file_text, file_lines, join, separator, wording_of, file_text_cap,
}

file_lines-Harmless : (texts : List Text) → All Harmless (file_lines texts)
unfolding file_lines
file_lines-Harmless [] = tt
file_lines-Harmless (line ∷ rest) = elim (Bool-cases (leb (length (trim line)) 0)) [
  | inl e ↦ rw e (file_lines-Harmless rest)
  | inr e ↦ rw e (legible-Harmless (trim line), file_lines-Harmless rest)
]

between_lines : Harmless separator
unfolding is_control_scalar
between_lines = (refl, (refl, (refl, tt)))

join-Harmless : (texts : List Text) → All Harmless texts → Harmless (join texts)
unfolding join
join-Harmless [] h = tt
join-Harmless (line ∷ []) h = h.0
join-Harmless (line ∷ next ∷ rest) h =
    All-append (λ c. is_control_scalar c ≡ false) line (separator ++ join (next ∷ rest)) h.0
      (All-append (λ c. is_control_scalar c ≡ false) separator (join (next ∷ rest)) between_lines
        (join-Harmless (next ∷ rest) h.1))

summarised-Harmless :
    (text : Text) → Harmless (summarised text) × (length (summarised text) ≤ reason_shown + 3)
unfolding summarised
summarised-Harmless text =
    cut_at-Harmless reason_shown (legible (trim (first_line (lines text))))
      (legible-Harmless (trim (first_line (lines text))))

wording-Harmless :
    (wording : Option Text) (text : Text)
    → Harmless (wording_of wording text) × (length (wording_of wording text) ≤ reason_shown + 3)
wording-Harmless none text = summarised-Harmless text
wording-Harmless (some shown) text = summarised-Harmless shown

-- Whatever text is recorded, such as a remote's error: neither what the popup shows for it nor what the
-- file gets holds a control scalar; the popup's texts have at most 123 characters,
-- the file's at most 4,099, and the file's is one line.
pub entry_of-Harmless :
    (n : Note)
    → Harmless (entry_of n).text
      × (length (entry_of n).text ≤ reason_shown + 3)
      × Harmless (entry_of n).shown
      × (length (entry_of n).shown ≤ reason_shown + 3)
      × Harmless (entry_of n).full
      × (length (entry_of n).full ≤ file_text_cap + 3)
unfolding entry_of file_text
entry_of-Harmless n =
    let (safe, short) = summarised-Harmless n.text in
    let (safe', short') = wording-Harmless n.wording n.text in
    let (safe'', short'') =
      cut_at-Harmless file_text_cap (join (file_lines (lines n.text)))
        (join-Harmless (file_lines (lines n.text)) (file_lines-Harmless (lines n.text))) in
    (safe, short, safe', short', safe'', short'')
