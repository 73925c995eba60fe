-- ===== src/Program/Activity/Lines.antt =====
-- The file says of everything how often it happened.
use oxutrm.Base.{
  ℕ, zero, suc, ◌+◌, ◌≤◌, ◌<◌, ◌≡◌, refl, sym, ap, ap₂, subst, ◌∙◌, inl, inr, Bool, true, false,
  List, [], ◌∷◌, ◌++◌, Option, none, some, ◌==◌, ==→eq, length, min, if◌then◌else◌, Bool-cases,
  arith,
}
use oxutrm.Proto.Addr.{agrees, agrees→eq}
use oxutrm.Proto.Text.{Text}
use oxutrm.Program.Activity.{
  Kind, link, standby, failover, rebuild, input, log, outage, config, session, number, Entry, Line,
  Activity, ring_cap, push, write, end_run, end_of, run_line, Note, entry_of, folds, append,
  repeated, record_in, record_entry, file_text, u32_max,
}
use oxutrm.Program.Activity.Ring.{Fits, push-listed}

-- An activity log with its file, before anything is recorded.
abbrev pub opened : Activity
opened = record { ring = []; file = true }

-- The log after some notes, newest first, and the lines that it wrote.
unfoldable pub logged : List Note → Activity × List Line
unfolding record_entry
logged [] = (opened, [])
logged (n ∷ notes) =
    let (a, lines) = logged notes in
    let (a', more) = record_entry none none n a in (a', lines ++ more)

-- All lines of a session: at its end `drop` writes out the run that is left.
unfoldable pub all_lines : List Note → List Line
unfolding logged end_run
all_lines notes = let (a, lines) = logged notes in lines ++ (end_run none a).1

write_line : (l : Line) (a : Activity) → a.file ≡ true → write none l a ≡ (a, l ∷ [])
unfolding write
write_line l a h = ap (λ b. if b then (a, l ∷ []) else (a, [])) h

plus_none : (n : ℕ) → n + 0 ≡ n
plus_none n = omega arith

module _ (asked_for : Kind → Text → Bool) where
  abbrev times : Option (ℕ × ℕ) → ℕ
  times none = 1
  times (some (n, since)) = n

  -- How often the lines say that it happened.
  unfoldable pub told : List Line → ℕ
  told [] = 0
  told (l ∷ lines) = (if asked_for l.kind l.full then times l.run else 0) + told lines

  -- How often it was recorded.
  unfoldable pub recorded : List Note → ℕ
  recorded [] = 0
  recorded (n ∷ notes) = (if asked_for n.kind (file_text n.text) then 1 else 0) + recorded notes

  -- The repeats that are not written yet.
  abbrev untold : List Entry → ℕ
  untold [] = 0
  untold (e ∷ older) = if asked_for e.kind e.full then e.repeats else 0

  told-append : (xs ys : List Line) → told (xs ++ ys) ≡ told xs + told ys
  unfolding told
  told-append [] ys = omega arith
  told-append (x ∷ xs) ys = omega (arith, told-append xs ys)

  zero_if : (b : Bool) (n : ℕ) → n ≡ 0 → 0 ≡ (if b then n else 0)
  zero_if true n h = sym h
  zero_if false n h = refl

  -- The end of a run tells what was left to tell.
  told-end_of :
      (ring : List Entry) (a : Activity)
      → a.file ≡ true
      → (told (end_of ring none a).1 ≡ untold ring) × ((end_of ring none a).0 ≡ a)
  unfolding told
  told-end_of [] a h = (refl, refl)
  told-end_of (e ∷ older) a h = elim (Bool-cases (e.repeats == 0)) [
    | inl z ↦
        let is : end_of (e ∷ older) none a ≡ (a, []) =
          ap (λ b. if b then (a, []) else write none (run_line e) a) z in
        (
          ap (λ (o : Activity × List Line). told o.1) is
              ∙ zero_if (asked_for e.kind e.full) e.repeats (==→eq e.repeats 0 z),
          ap (λ (o : Activity × List Line). o.0) is,
        )
    | inr z ↦
        let is : end_of (e ∷ older) none a ≡ (a, run_line e ∷ []) =
          ap (λ b. if b then (a, []) else write none (run_line e) a) z
          ∙ write_line (run_line e) a h in
        (
          ap (λ (o : Activity × List Line). told o.1) is ∙ plus_none _,
          ap (λ (o : Activity × List Line). o.0) is,
        )
  ]

-- The newest entry was not repeated more often than so.
abbrev ShortRun : ℕ → List Entry → Type 0
ShortRun n [] = Unit
ShortRun n (e ∷ older) = e.repeats ≤ n

-- The line of an entry's first time.
abbrev first_of : Entry → Line
first_of e = record { at = e.at; kind = e.kind; full = e.full; run = none }

-- One more time, whether it counts or not.
one_more :
    (b c : Bool) (repeats lines lines' before : ℕ)
    → b ≡ c
    → lines' ≡ lines
    → repeats < u32_max
    → lines + (if b then repeats else 0) ≡ before
    → lines' + (if b then min (repeats + 1) u32_max else 0) ≡ (if c then 1 else 0) + before
one_more true true r l l' n is same room h = omega arith
one_more false false r l l' n is same room h = omega arith
one_more true false r l l' n is same room h = absurd (cc)
one_more false true r l l' n is same room h = absurd (cc)

kind_of : ℕ → Kind
kind_of zero = link
kind_of (suc zero) = standby
kind_of (suc (suc zero)) = failover
kind_of (suc (suc (suc zero))) = rebuild
kind_of (suc (suc (suc (suc zero)))) = input
kind_of (suc (suc (suc (suc (suc zero))))) = log
kind_of (suc (suc (suc (suc (suc (suc zero)))))) = outage
kind_of (suc (suc (suc (suc (suc (suc (suc zero))))))) = config
kind_of (suc (suc (suc (suc (suc (suc (suc (suc n)))))))) = session

kind_of-number : (k : Kind) → kind_of (number k) ≡ k
unfolding kind_of
kind_of-number link = refl
kind_of-number standby = refl
kind_of-number failover = refl
kind_of-number rebuild = refl
kind_of-number input = refl
kind_of-number log = refl
kind_of-number outage = refl
kind_of-number config = refl
kind_of-number session = refl

-- An entry that folds into the newest has its kind and its text.
folds_same : (e last : Entry) → folds e last ≡ true → (last.kind ≡ e.kind) × (last.full ≡ e.full)
unfolding folds
folds_same e last h =
    let same : (number last.kind ≡ number e.kind) × (agrees last.full e.full ≡ true) =
      (ground (arith, h), ground (arith, h)) in
    (
      sym (kind_of-number last.kind) ∙ ap kind_of same.0 ∙ kind_of-number e.kind,
      agrees→eq last.full e.full same.1,
    )

module _ (asked_for : Kind → Text → Bool) where
  -- A log that has told all but the repeats of its newest entry.
  record Tells (notes : List Note) (a : Activity) (lines : List Line) : Type 0 where
    fits : Fits a.ring
    open_file : a.file ≡ true
    short : ShortRun (length notes) a.ring
    account : told asked_for lines + untold asked_for a.ring ≡ recorded asked_for notes

  -- What an appended entry writes.
  appended :
      (e : Entry) (a : Activity)
      → a.file ≡ true
      → append none none e a
        ≡ (record a { ring = push e a.ring }, (end_run none a).1 ++ first_of e ∷ [])
  unfolding append end_run
  appended e a h =
      let ended = (end_of a.ring none a).1 in
      let with_entry =
        λ (b : Activity). write none (first_of e) (record b { ring = push e b.ring }) in
      ap
        (λ (b : Activity).
          let o : Activity × List Line = ((with_entry b).0, ended ++ (with_entry b).1) in o)
        (told-end_of asked_for a.ring a h).1
      ∙ ap (λ (o : Activity × List Line). let p : Activity × List Line = (o.0, ended ++ o.1) in p)
          (write_line (first_of e) (record a { ring = push e a.ring }) h)

  append-Tells :
      (n : Note) (notes : List Note) (a : Activity) (lines : List Line)
      → Tells notes a lines
      → Tells
          (n ∷ notes)
          (append none none (entry_of n) a).0
          (lines ++ (append none none (entry_of n) a).1)
  unfolding recorded told end_run entry_of
  append-Tells n notes a lines t =
      let e = entry_of n in
      let ended = (end_of a.ring none a).1 in
      let (fits, (rest, headed), _) = push-listed e a.ring t.fits in
      let written = told-end_of asked_for a.ring a t.open_file in
      let more = told-append asked_for lines (ended ++ first_of e ∷ []) in
      let more' = told-append asked_for ended (first_of e ∷ []) in
      let none_left : untold asked_for (push e a.ring) ≡ 0 =
        ap (untold asked_for) headed ∙ sym (zero_if asked_for (asked_for e.kind e.full) 0 refl) in
      let done : Tells (n ∷ notes) (record a { ring = push e a.ring })
          (lines ++ (ended ++ first_of e ∷ [])) =
        record {
          fits = fits;
          open_file = t.open_file;
          short = subst (ShortRun (suc (length notes))) (sym headed) (omega arith);
          account = omega (arith, more, more', written.0, none_left, t.account);
        } in
      subst (λ (o : Activity × List Line). Tells (n ∷ notes) o.0 (lines ++ o.1))
        (sym (appended e a t.open_file)) done

  fold-Tells :
      (n : Note) (notes : List Note) (a : Activity) (lines : List Line) (last : Entry)
      (older : List Entry)
      → a.ring ≡ last ∷ older
      → length notes < u32_max
      → folds (entry_of n) last ≡ true
      → Tells notes a lines
      → Tells (n ∷ notes) (record a { ring = repeated (entry_of n) last ∷ older }) (lines ++ [])
  unfolding recorded entry_of told
  fold-Tells n notes a lines last older is room same t =
      let (kind, full) = folds_same (entry_of n) last same in
      let few : last.repeats ≤ length notes = subst (ShortRun (length notes)) is t.short in
      let q : asked_for last.kind last.full ≡ asked_for n.kind (file_text n.text) =
        ap₂ asked_for kind full in
      let left : untold asked_for a.ring
          ≡ (if asked_for last.kind last.full then last.repeats else 0) =
        ap (untold asked_for) is in
      record {
        fits = subst Fits is t.fits;
        open_file = t.open_file;
        short = omega arith;
        account =
            one_more (asked_for last.kind last.full) (asked_for n.kind (file_text n.text))
              last.repeats (told asked_for lines) (told asked_for (lines ++ []))
              (recorded asked_for notes) q (omega (arith, told-append asked_for lines []))
              (omega (arith, few, room)) (omega (arith, left, t.account));
      }

  record_in-Tells :
      (ring : List Entry) (n : Note) (notes : List Note) (a : Activity) (lines : List Line)
      → a.ring ≡ ring
      → length notes < u32_max
      → Tells notes a lines
      → Tells
          (n ∷ notes)
          (record_in ring none none (entry_of n) a).0
          (lines ++ (record_in ring none none (entry_of n) a).1)
  unfolding record_in
  record_in-Tells [] n notes a lines is room t = append-Tells n notes a lines t
  record_in-Tells (last ∷ older) n notes a lines is room t =
      elim (Bool-cases (folds (entry_of n) last)) [
        | inl e ↦ rw e (fold-Tells n notes a lines last older is room e t)
        | inr e ↦ rw e (append-Tells n notes a lines t)
      ]

  logged-Tells :
      (notes : List Note) → length notes ≤ u32_max → Tells notes (logged notes).0 (logged notes).1
  unfolding logged record_entry told recorded
  logged-Tells [] h = record {
    fits = omega arith;
    open_file = refl;
    short = tt;
    account = omega arith;
  }
  logged-Tells (n ∷ notes) h =
      record_in-Tells (logged notes).0.ring n notes (logged notes).0 (logged notes).1 refl
        (omega arith) (logged-Tells notes (omega arith))

  -- For any records of a session, fewer than 2^32 of them and with a file that takes every line: for
  -- any choice of kinds and texts, the lines of the file, a run's line counted as often as it says,
  -- come to exactly the number of records of that choice; the ring never holds more than 200.
  pub all_lines-recorded :
      (notes : List Note)
      → length notes ≤ u32_max
      → (told asked_for (all_lines notes) ≡ recorded asked_for notes)
        × (length (logged notes).0.ring ≤ ring_cap)
  unfolding all_lines end_run
  all_lines-recorded notes h =
      let t = logged-Tells notes h in
      let a = (logged notes).0 in
      (
        told-append asked_for (logged notes).1 (end_of a.ring none a).1
            ∙ ap (λ n. told asked_for (logged notes).1 + n)
                (told-end_of asked_for a.ring a t.open_file).0
            ∙ t.account,
        t.fits,
      )
