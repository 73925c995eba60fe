-- ===== src/Program/Activity.antt =====
-- src/activity.rs: what happened in a session, for the popup and for the log file. A time is the seconds
-- since the epoch.
pub mod Ring
pub mod Lines
pub mod Texts
pub mod Dates
use oxutrm.Base.{
  ℕ, zero, suc, ◌+◌, Bool, true, false, ◌&&◌, not, List, [], ◌∷◌, ◌++◌, Option, none, some, ltb,
  leb, ◌==◌, length, min, if◌then◌else◌,
}
use oxutrm.Proto.Addr.{agrees}
use oxutrm.Proto.Text.{Text}
use oxutrm.Client.Legible.{legible, lines, trim, trim_start, trim_end, cut_at, summarised}

-- `RING`.
abbrev pub ring_cap : ℕ
ring_cap = 200

abbrev pub file_text_cap : ℕ
file_text_cap = 4096

abbrev pub u32_max : ℕ
u32_max = 0xffff_ffff

pub data Kind : Type 0 where
  link standby failover rebuild input log outage config session : Kind

abbrev pub number : Kind → ℕ
number link = 0
number standby = 1
number failover = 2
number rebuild = 3
number input = 4
number log = 5
number outage = 6
number config = 7
number session = 8

pub record Entry : Type 0 where
  pub at : ℕ
  pub since : ℕ
  pub kind : Kind
  pub text : Text
  pub shown : Text
  pub full : Text
  pub detail : Bool
  pub repeats : ℕ

-- A line of the file, before its time and the session's tag are made text: the entry's, and for the end
-- of a run how often it was repeated and since when.
pub record Line : Type 0 where
  pub at : ℕ
  pub kind : Kind
  pub full : Text
  pub run : Option (ℕ × ℕ)

-- The ring has its newest entry first, where the source's deque has it last. `file` is whether there
-- is one.
pub record Activity : Type 0 where
  pub ring : List Entry
  pub file : Bool

-- Each line trimmed and escaped, the blank ones dropped, the rest joined.
unfoldable pub file_lines : List Text → List Text
unfolding legible trim_start trim_end
file_lines [] = []
file_lines (line ∷ rest) =
    if leb (length (trim line)) 0 then file_lines rest else legible (trim line) ∷ file_lines rest

abbrev pub separator : Text
separator = b' ' ∷ b'|' ∷ b' ' ∷ []

unfoldable pub join : List Text → Text
join [] = []
join (line ∷ []) = line
join (line ∷ next ∷ rest) = line ++ (separator ++ join (next ∷ rest))

unfoldable pub file_text : Text → Text
unfolding file_lines join lines cut_at
file_text text = cut_at file_text_cap (join (file_lines (lines text)))

-- `position` and `remove` among the entries that are not the newest: the oldest detail.
abbrev pub keep_younger : Entry → List Entry → Option (List Entry) → Option (List Entry)
keep_younger e older (some rest) = some (e ∷ rest)
keep_younger e older none = if e.detail then some older else none

unfoldable pub without_detail : List Entry → Option (List Entry)
without_detail [] = none
without_detail (e ∷ older) = keep_younger e older (without_detail older)

-- `pop_front`: without the oldest.
unfoldable pub without_oldest : List Entry → List Entry
without_oldest [] = []
without_oldest (e ∷ []) = []
without_oldest (e ∷ d ∷ older) = e ∷ without_oldest (d ∷ older)

abbrev pub or_oldest : Entry → List Entry → Option (List Entry) → List Entry
or_oldest e older none = without_oldest (e ∷ older)
or_oldest e older (some rest) = e ∷ rest

unfoldable pub evict : List Entry → List Entry
unfolding without_detail without_oldest
evict [] = []
evict (e ∷ older) = or_oldest e older (without_detail older)

-- `while self.ring.len() > RING`, with fuel.
unfoldable pub shrink : ℕ → List Entry → List Entry
unfolding evict
shrink zero ring = ring
shrink (suc fuel) ring =
    let next = shrink fuel (evict ring) in if ltb ring_cap (length ring) then next else ring

unfoldable pub push : Entry → List Entry → List Entry
unfolding shrink
push e ring = shrink (suc (length ring)) (e ∷ ring)

-- How a write to the file ends: `none` if it does, or the time and the text of the entry that says why
-- it did not.
abbrev pub Fault : Type 0
Fault = Option (ℕ × Text)

unfoldable pub file_off : ℕ → Text → Activity → Activity
unfolding push summarised
file_off at reason a = record a {
  ring =
      push
        record {
          at = at;
          since = at;
          kind = log;
          text = summarised reason;
          shown = summarised reason;
          full = summarised reason;
          detail = false;
          repeats = 0;
        }
        a.ring;
}

abbrev pub attempted : Fault → Line → Activity → Activity × List Line
attempted none line a = (a, line ∷ [])
attempted (some (at, reason)) line a = (file_off at reason (record a { file = false }), [])

unfoldable pub write : Fault → Line → Activity → Activity × List Line
unfolding file_off
write fault line a = if a.file then attempted fault line a else (a, [])

-- The line for a run that is over, if the newest entry was one.
abbrev pub run_line : Entry → Line
run_line e = record { at = e.at; kind = e.kind; full = e.full; run = some (e.repeats, e.since) }

abbrev pub end_of : List Entry → Fault → Activity → Activity × List Line
end_of [] fault a = (a, [])
end_of (e ∷ older) fault a = if e.repeats == 0 then (a, []) else write fault (run_line e) a

unfoldable pub end_run : Fault → Activity → Activity × List Line
unfolding write
end_run fault a = end_of a.ring fault a

-- What is asked to be recorded.
pub record Note : Type 0 where
  pub kind : Kind
  pub text : Text
  pub wording : Option Text
  pub detail : Bool
  pub at : ℕ

abbrev pub wording_of : Option Text → Text → Text
wording_of none text = summarised text
wording_of (some shown) text = summarised shown

unfoldable pub entry_of : Note → Entry
unfolding summarised file_text
entry_of n = record {
  at = n.at;
  since = n.at;
  kind = n.kind;
  text = summarised n.text;
  shown = wording_of n.wording n.text;
  full = file_text n.text;
  detail = n.detail;
  repeats = 0;
}

abbrev pub same_detail : Bool → Bool → Bool
same_detail true d = d
same_detail false d = not d

-- Whether an entry says what the newest says.
unfoldable pub folds : Entry → Entry → Bool
unfolding agrees
folds e last =
    number last.kind == number e.kind
    && agrees last.full e.full
    && agrees last.shown e.shown
    && same_detail last.detail e.detail

-- A new entry: the run before it is written out, and its own first line is.
unfoldable pub append : Fault → Fault → Entry → Activity → Activity × List Line
unfolding end_run push write
append before own e a =
    let (a', ended) = end_run before a in
    let (a'', first) =
      write own (record { at = e.at; kind = e.kind; full = e.full; run = none })
        (record a' { ring = push e a'.ring }) in
    (a'', ended ++ first)

abbrev pub repeated : Entry → Entry → Entry
repeated e last = record last { repeats = min (last.repeats + 1) u32_max; at = e.at }

unfoldable pub record_in : List Entry → Fault → Fault → Entry → Activity → Activity × List Line
unfolding folds append
record_in [] before own e a = append before own e a
record_in (last ∷ older) before own e a =
    if folds e last
    then (record a { ring = repeated e last ∷ older }, [])
    else append before own e a

unfoldable pub record_entry : Fault → Fault → Note → Activity → Activity × List Line
unfolding record_in entry_of
record_entry before own n a = record_in a.ring before own (entry_of n) a
