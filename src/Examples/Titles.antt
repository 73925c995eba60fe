-- ===== src/Examples/Titles.antt =====
-- A child sets its title and leaves another OSC open.
use oxutrm.Base.{◌≡◌, refl, List, [], ◌∷◌, ◌++◌, replicate, arith}
use oxutrm.Proto.Frame.{Bytes}
use oxutrm.Term.OscGuard.{limit, feed_all, new, rounds, begin, bel, esc, can}
use oxutrm.Term.OscGuard.Reading.{Reading, outside, advance, read_all, Throughout}
use oxutrm.Term.OscGuard.Limits.{printable}
use oxutrm.Term.OscGuard.Trail.{abstracts, HoldsIn}
use oxutrm.Term.OscGuard.Rounds.{feed_ends}
use oxutrm.Term.OscGuard.Refines.{Parser, parse, Bounded, guard_protects}
use oxutrm.Term.OscGuard.Passing.{whatever, read_as, Idle}
use oxutrm.Term.OscGuard.Transparent.{guard_passes}
use oxutrm.Term.OscGuard.Pieces.{feed_all_pieces}

-- ESC ] 2 ; h i BEL $ ESC ] 8 ; x
abbrev title : Bytes
title = esc ∷ b']' ∷ b'2' ∷ b';' ∷ b'h' ∷ b'i' ∷ bel ∷ b'$' ∷ esc ∷ b']' ∷ b'8' ∷ b';' ∷ b'x' ∷ []

abbrev in_two : List Bytes
in_two =
    (esc ∷ b']' ∷ b'2' ∷ b';' ∷ [])
    ∷ (b'h' ∷ b'i' ∷ bel ∷ b'$' ∷ esc ∷ b']' ∷ b'8' ∷ b';' ∷ b'x' ∷ [])
    ∷ []

abbrev in_three : List Bytes
in_three =
    (esc ∷ [])
    ∷ (b']' ∷ b'2' ∷ b';' ∷ b'h' ∷ b'i' ∷ [])
    ∷ (bel ∷ b'$' ∷ esc ∷ b']' ∷ b'8' ∷ b';' ∷ b'x' ∷ [])
    ∷ []

-- The parser that is its own reading.
abbrev reader : Parser
reader = record {
  Vte = Reading;
  start = outside;
  read = advance printable;
  reading = λ v. v;
  starts = refl;
  reads = λ v b. refl;
}

feed_ends_example :
    ((rounds 20 (begin new title)).rest ≡ [])
    × (rounds 20 (begin new title) ≡ rounds 13 (begin new title))
feed_ends_example = feed_ends new title 20 (omega arith)

guard_protects_example :
    Bounded reader outside (feed_all new in_two).1
    × (parse reader outside (feed_all new in_two).1 ≡ abstracts (feed_all new in_two).0.state)
    × HoldsIn (feed_all new in_two).0.state (feed_all new in_two).0.held
guard_protects_example = guard_protects reader in_two

calm : Throughout whatever outside title
unfolding Throughout advance limit
calm = omega arith

guard_passes_example :
    ((feed_all new in_two).1 ++ (feed_all new in_two).0.held ≡ title)
    × Idle (feed_all new in_two).0.state (feed_all new in_two).0.held
    × (read_as (feed_all new in_two).0.state (feed_all new in_two).0.held
        ≡ read_all whatever outside title)
guard_passes_example = guard_passes in_two calm

feed_all_pieces_example : feed_all new in_two ≡ feed_all new in_three
feed_all_pieces_example = feed_all_pieces in_two in_three refl calm

-- A number that is padded with controls, cut in two and whole.
abbrev padded : Bytes
padded = esc ∷ b']' ∷ b'2' ∷ replicate 2048 1

cut_is_discarded : (feed_all new (padded ∷ (b'2' ∷ b';' ∷ bel ∷ []) ∷ [])).1 ≡ esc ∷ b']' ∷ can ∷ []
unfolding feed_all new
cut_is_discarded = refl

whole_passes :
    (feed_all new ((padded ++ (b'2' ∷ b';' ∷ bel ∷ [])) ∷ [])).1
    ≡ padded ++ (b'2' ∷ b';' ∷ bel ∷ [])
unfolding feed_all new
whole_passes = refl
