-- ===== src/Examples/Logs.antt =====
-- A session's log, with a run of repeats.
use oxutrm.Base.{
  ◌+◌, ◌≤◌, ◌≡◌, refl, ◌⊎◌, Bool, true, false, List, [], ◌∷◌, none, some, length, All, replicate,
  arith,
}
use oxutrm.Proto.Text.{Text}
use oxutrm.Client.Legible.{reason_shown}
use oxutrm.Client.Legible.Safe.{Harmless}
use oxutrm.Program.Activity.{
  Kind, link, standby, Entry, Note, ring_cap, push, without_oldest, entry_of, file_text_cap,
}
use oxutrm.Program.Activity.Dates.{civil, calendar, civil-calendar}
use oxutrm.Program.Activity.Ring.{Fits, NoDetail, listed, push-listed}
use oxutrm.Program.Activity.Lines.{logged, all_lines, told, recorded, all_lines-recorded}
use oxutrm.Program.Activity.Texts.{entry_of-Harmless}

-- "up\e[2J" and "down".
abbrev up : Note
up = record {
  kind = link;
  text = b'u' ∷ b'p' ∷ 0x1b ∷ b'[' ∷ b'2' ∷ b'J' ∷ [];
  wording = none;
  detail = false;
  at = 100;
}

abbrev down : Note
down = record {
  kind = standby;
  text = b'd' ∷ b'o' ∷ b'w' ∷ b'n' ∷ [];
  wording = some (b'-' ∷ []);
  detail = true;
  at = 101;
}

abbrev links : Kind → Text → Bool
links link text = true
links standby text = false
links Kind.failover text = false
links Kind.rebuild text = false
links Kind.input text = false
links Kind.log text = false
links Kind.outage text = false
links Kind.config text = false
links Kind.session text = false

abbrev night : List Note
night = up ∷ down ∷ up ∷ up ∷ up ∷ []

all_lines-recorded_example :
    (told links (all_lines night) ≡ recorded links night)
    × (length (logged night).0.ring ≤ ring_cap)
all_lines-recorded_example = all_lines-recorded links night (omega arith)

entry_of-Harmless_example :
    Harmless (entry_of up).text
    × (length (entry_of up).text ≤ reason_shown + 3)
    × Harmless (entry_of up).shown
    × (length (entry_of up).shown ≤ reason_shown + 3)
    × Harmless (entry_of up).full
    × (length (entry_of up).full ≤ file_text_cap + 3)
entry_of-Harmless_example = entry_of-Harmless up

abbrev full_ring : List Entry
full_ring = replicate 200 (entry_of up)

push-listed_example :
    Fits (push (entry_of down) full_ring)
    × ((rest : List Entry) × (push (entry_of down) full_ring ≡ entry_of down ∷ rest))
    × ((listed (push (entry_of down) full_ring) ≡ listed (entry_of down ∷ full_ring))
        ⊎ ((length full_ring ≡ ring_cap)
            × All NoDetail full_ring
            × (push (entry_of down) full_ring ≡ entry_of down ∷ without_oldest full_ring)))
push-listed_example = push-listed (entry_of down) full_ring (omega arith)

-- The leap day of 1972, and the day after it.
leap_day : (civil 789).day ≡ 29
unfolding civil
leap_day = refl

civil-calendar_example : civil 790 ≡ calendar 790
civil-calendar_example = civil-calendar 790
