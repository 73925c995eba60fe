-- ===== src/Term/OscGuard.antt =====
-- crates/oxutrm-term/src/osc_guard.rs: the length cap on OSC strings. A byte is a number below 256.
pub mod Rounds
pub mod Limits
pub mod Reading
pub mod Trail
mod Steps
pub mod Refines
pub mod Passing
pub mod Transparent
pub mod Pieces
use oxutrm.Base.{
  ℕ, zero, suc, ◌+◌, ◌*◌, Bool, true, false, not, ◌&&◌, ◌||◌, List, [], ◌∷◌, ◌++◌, ◌==◌, leb, ltb,
  length, if◌then◌else◌,
}
use oxutrm.Proto.Frame.{Bytes}

abbrev pub max_osc_len : ℕ
max_osc_len = 512 * 1024

abbrev pub max_title_osc_len : ℕ
max_title_osc_len = 2 * 1024

abbrev pub max_link_osc_len : ℕ
max_link_osc_len = 4 * 1024

pub data State : Type 0 where
  ground escape osc discard : State

pub record OscGuard : Type 0 where
  pub state : State
  pub held : Bytes

abbrev pub bel : ℕ
bel = 0x07

abbrev pub can : ℕ
can = 0x18

abbrev pub sub : ℕ
sub = 0x1a

abbrev pub esc : ℕ
esc = 0x1b

-- `split_at(position(stop))`: what stands before the first byte that passes, and what is left from
-- that byte on.
unfoldable pub before : (ℕ → Bool) → Bytes → Bytes
before stop [] = []
before stop (b ∷ bytes) = if stop b then [] else b ∷ before stop bytes

unfoldable pub onward : (ℕ → Bool) → Bytes → Bytes
onward stop [] = []
onward stop (b ∷ bytes) = if stop b then b ∷ bytes else onward stop bytes

-- The `filter` of `limit`.
unfoldable pub without_controls : Bytes → Bytes
without_controls [] = []
without_controls (b ∷ bytes) =
    if leb 0x20 b then b ∷ without_controls bytes else without_controls bytes

unfoldable pub limit_of : Bytes → ℕ
limit_of [] = max_osc_len
limit_of (d ∷ []) =
    if d == b'0' || d == b'1' || d == b'2'
    then max_title_osc_len
    else if d == b'8'
    then max_link_osc_len
    else max_osc_len
limit_of (d ∷ e ∷ num) = max_osc_len

unfoldable pub limit : Bytes → ℕ
unfolding limit_of without_controls before
limit held = limit_of (without_controls (before (λ b. b == b';') held))

unfoldable pub ends_osc : ℕ → Bool
ends_osc b = b == bel || b == can || b == sub || b == esc

unfoldable pub new : OscGuard
new = record { state = ground; held = [] }

-- `feed` at the top of its loop: `out` is what `sink` received so far, `pending` is
-- `input[start..i]` and `rest` is `input[i..]`.
pub record Pass : Type 0 where
  pub guard : OscGuard
  pub out : Bytes
  pub pending : Bytes
  pub rest : Bytes

unfoldable pub in_ground : Bytes → Bytes → Pass → Pass
in_ground skipped [] p = record p { pending = p.pending ++ skipped; rest = [] }
in_ground skipped (b ∷ rest) p = record p {
  guard = record p.guard { state = escape };
  pending = p.pending ++ (skipped ++ b ∷ []);
  rest = rest;
}

-- The bytes after which the parser is still in its escape state.
unfoldable pub stays_escaped : ℕ → Bool
stays_escaped b = leb b 0x17 || b == 0x19 || (leb 0x1b b && leb b 0x1f) || leb 0x7f b

unfoldable pub in_escape : Bytes → Pass → Pass
unfolding stays_escaped
in_escape [] p = p
in_escape (b ∷ rest) p =
    if b == b']'
    then record p {
      guard = record p.guard { state = osc };
      out = p.out ++ (p.pending ++ b ∷ []);
      pending = [];
      rest = rest;
    }
    else record p {
      guard = record p.guard { state = if stays_escaped b then escape else ground };
      pending = p.pending ++ b ∷ [];
      rest = rest;
    }

-- The held bytes and the new ones, unless they exceed the general cap.
unfoldable pub extended : Bytes → Bytes → Bytes
extended held body = if leb (length held + length body) max_osc_len then held ++ body else held

unfoldable pub is_over : Bytes → Bytes → Bool
unfolding limit extended
is_over held body =
    not (leb (length held + length body) max_osc_len)
    || ltb (limit (extended held body)) (length (extended held body))

-- A body's bytes, up to its terminator or the end of the input.
unfoldable pub take_body : Bytes → Pass → Pass
unfolding is_over extended
take_body body p =
    if is_over p.guard.held body
    then record p {
      guard = record { state = discard; held = [] };
      out = p.out ++ can ∷ [];
      pending = [];
    }
    else record p {
      guard = record { state = osc; held = extended p.guard.held body };
      pending = [];
    }

unfoldable pub skip_body : Pass → Pass
skip_body p = record p { pending = [] }

unfoldable pub after_osc : ℕ → State
after_osc b = if b == esc then escape else ground

-- The terminator, in the state that the body left.
unfoldable pub terminate : State → Bytes → Pass → Pass
unfolding after_osc
terminate discard (b ∷ rest) p = record p {
  guard = record p.guard { state = after_osc b };
  pending = if b == bel then [] else b ∷ [];
  rest = rest;
}
terminate s [] p = record p { rest = [] }
terminate s (b ∷ rest) p = record p {
  guard = record { state = after_osc b; held = [] };
  out = p.out ++ p.guard.held;
  pending = b ∷ [];
  rest = rest;
}

-- One round of the loop, in the state that it finds.
unfoldable pub round_in : State → Pass → Pass
unfolding before onward ends_osc in_ground in_escape take_body skip_body terminate
round_in ground p = in_ground (before (λ b. b == esc) p.rest) (onward (λ b. b == esc) p.rest) p
round_in escape p = in_escape p.rest p
round_in osc p =
    let p' = take_body (before ends_osc p.rest) p in
    terminate p'.guard.state (onward ends_osc p.rest) p'
round_in discard p = let p' = skip_body p in terminate p'.guard.state (onward ends_osc p.rest) p'

unfoldable pub round : Pass → Pass
unfolding round_in
round p = round_in p.guard.state p

abbrev pub is_left : Bytes → Bool
is_left [] = false
is_left (b ∷ rest) = true

-- `while i < input.len()`, with fuel.
unfoldable pub rounds : ℕ → Pass → Pass
unfolding round
rounds zero p = p
rounds (suc fuel) p = let next = rounds fuel (round p) in if is_left p.rest then next else p

unfoldable pub begin : OscGuard → Bytes → Pass
begin g input = record { guard = g; out = []; pending = []; rest = input }

-- The new guard, and all that `sink` receives. A round takes at least a byte.
unfoldable pub feed : OscGuard → Bytes → OscGuard × Bytes
unfolding rounds begin
feed g input = let p = rounds (length input) (begin g input) in (p.guard, p.out ++ p.pending)

-- One call for each piece that the child's output arrives in.
unfoldable pub feed_all : OscGuard → List Bytes → OscGuard × Bytes
unfolding feed
feed_all g [] = (g, [])
feed_all g (input ∷ inputs) =
    let (g', out) = feed g input in let (h, more) = feed_all g' inputs in (h, out ++ more)
