-- ===== src/Term/OscGuard/Trail.antt =====
-- How the parser goes on over the bytes that the guard hands over: what its states are to the guard's.
use oxutrm.Base.{
  ℕ, ◌≤◌, ◌≡◌, sym, ap, subst, ◌∙◌, true, false, inl, inr, [], ◌∷◌, ◌++◌, length, All, All-append,
  Bool-cases, append_assoc, arith,
}
use oxutrm.Proto.Frame.{Bytes}
use oxutrm.Term.OscGuard.{State, ground, escape, osc, discard, ends_osc, limit}
use oxutrm.Term.OscGuard.Reading.{
  Reading, outside, escaped, string, advance, read_all, Within, Throughout, kept, read_all-append,
  Throughout-append, advance_plain, string_grows,
}
use oxutrm.Term.OscGuard.Limits.{printable, limit_prefix, limit-kept, kept-le}

-- What the parser makes of the output, by the guard's state: of an OSC it has seen the introducer.
unfoldable pub abstracts : State → Reading
abstracts ground = outside
abstracts escape = escaped
abstracts osc = string []
abstracts discard = outside

-- What the guard holds, by its state.
abbrev pub HoldsIn : State → Bytes → Type 0
HoldsIn ground held = held ≡ []
HoldsIn escape held = held ≡ []
HoldsIn osc held = All (λ b. ends_osc b ≡ false) held × (length held ≤ limit held)
HoldsIn discard held = held ≡ []

-- In an OSC everything was handed over.
abbrev pub FlushedIn : State → Bytes → Type 0
FlushedIn ground pending = Unit
FlushedIn escape pending = Unit
FlushedIn osc pending = pending ≡ []
FlushedIn discard pending = pending ≡ []

-- Some bytes lead the parser from one state to another, within the caps all the way.
abbrev pub Trail : Reading → Bytes → Reading → Type 0
Trail v bytes w = (read_all printable v bytes ≡ w) × Throughout printable v bytes

pub Trail-append :
    (u v w : Reading) (xs ys : Bytes) → Trail u xs v → Trail v ys w → Trail u (xs ++ ys) w
Trail-append u v w xs ys (e, h) (f, k) = (
  read_all-append printable u xs ys ∙ ap (λ (r : Reading). read_all printable r ys) e ∙ f,
  Throughout-append printable u xs ys h
      (subst (λ (r : Reading). Throughout printable r ys) (sym e) k),
)

-- One byte, between states in which no OSC is being stored.
pub byte-Trail :
    (v w : Reading) (b : ℕ) → advance printable v b ≡ w → Within v → Within w → Trail v (b ∷ []) w
unfolding read_all Throughout
byte-Trail v w b e h k = (e, (h, subst Within (sym e) k))

string_calm :
    (stored bytes : Bytes)
    → All (λ b. printable b ≡ true) stored
    → All (λ b. ends_osc b ≡ false) bytes
    → length (stored ++ kept printable bytes) ≤ limit (stored ++ kept printable bytes)
    → Throughout printable (string stored) bytes
unfolding Throughout kept
string_calm stored [] p h fits = limit_prefix stored [] p fits
string_calm stored (b ∷ bytes) p h fits = elim (Bool-cases (printable b)) [
  | inl e ↦
      let fits' : length (stored ++ (b ∷ kept printable bytes))
          ≤ limit (stored ++ (b ∷ kept printable bytes)) =
        (rw e at fits) in
      (
        limit_prefix stored (b ∷ kept printable bytes) p fits',
        rw (advance_plain printable stored b h.0) (
            rw e (
              string_calm (stored ++ b ∷ []) bytes
                (All-append (λ c. printable c ≡ true) stored (b ∷ []) p (e, tt)) h.1
                (subst (λ (r : Bytes). length r ≤ limit r)
                  (sym (append_assoc stored (b ∷ []) (kept printable bytes))) fits'))),
      )
  | inr e ↦
      let fits' : length (stored ++ kept printable bytes) ≤ limit (stored ++ kept printable bytes) =
        (rw e at fits) in
      (
        limit_prefix stored (kept printable bytes) p fits',
        rw (advance_plain printable stored b h.0) (rw e (string_calm stored bytes p h.1 fits')),
      )
]

-- A held body that is released is read without leaving its cap.
pub held-Trail :
    (held : Bytes) → HoldsIn osc held → Trail (string []) held (string (kept printable held))
held-Trail held (plain, fits) = (
  string_grows printable [] held plain,
  string_calm [] held tt plain (
      let less : length (kept printable held) ≤ limit (kept printable held) =
        omega (arith, limit-kept held, kept-le held, fits) in
      less),
)
