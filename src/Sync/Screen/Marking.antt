-- ===== src/Sync/Screen/Marking.antt =====
-- What the marks of a row say of the row and of the buffer.
use oxutrm.Base.{
  ℕ, zero, suc, ◌+◌, ◌≤◌, ◌≡◌, refl, sym, ap, ap₂, ◌∙◌, true, false, ◌&&◌, List, [], ◌∷◌, ◌++◌, All,
  length, drop, take, replicate, arith, Bool-cases, inl, inr, if_neg,
}
use oxutrm.Proto.Cell.{Cell, Cell-discrete}
use oxutrm.Sync.Screen.Runs.{cell_eq, Mark, marks, repeats, start_of}
use oxutrm.Sync.Screen.Paint.{TextOk}

-- The row that the marks are of.
abbrev pub targets : List Mark → List Cell
targets [] = []
targets ((c, _) ∷ ms) = c ∷ targets ms

-- What a row of the buffer has to do with the marks: where a cell is unchanged, it is there.
abbrev pub Agrees : List Cell → List Mark → Type 0
Agrees [] [] = Unit {0}
Agrees [] (m ∷ ms) = ⊥
Agrees (x ∷ xs) [] = ⊥
Agrees (x ∷ xs) ((c, changed) ∷ ms) = (changed ≡ false → x ≡ c) × Agrees xs ms

cell_eq-eq : (a b : Cell) → cell_eq a b ≡ true → a ≡ b
cell_eq-eq a b h = elim (Cell-discrete a b) [
  | yes e ↦ e
  | no e ↦ let clash : true ≡ false = sym h ∙ if_neg (Cell-discrete a b) e true false in absurd (cc)
]

pub targets-marks : (t b : List Cell) → targets (marks t b) ≡ t
unfolding marks
targets-marks [] b = refl
targets-marks (c ∷ t) [] = ap (λ (r : List Cell). c ∷ r) (targets-marks t [])
targets-marks (c ∷ t) (x ∷ b) = ap (λ (r : List Cell). c ∷ r) (targets-marks t b)

pub length-marks : (t b : List Cell) → length (marks t b) ≡ length t
unfolding marks
length-marks [] b = refl
length-marks (c ∷ t) [] = ap suc (length-marks t [])
length-marks (c ∷ t) (x ∷ b) = ap suc (length-marks t b)

pub Agrees-marks_self : (t b : List Cell) → length b ≡ length t → Agrees b (marks t b)
unfolding marks
Agrees-marks_self [] [] h = tt
Agrees-marks_self [] (x ∷ b) h = absurd (omega arith)
Agrees-marks_self (c ∷ t) [] h = absurd (omega arith)
Agrees-marks_self (c ∷ t) (x ∷ b) h =
    (λ e. sym (cell_eq-eq c x (ground arith)), Agrees-marks_self t b (omega arith))

pub Agrees-marks_none : (t b : List Cell) → length b ≡ length t → Agrees b (marks t [])
unfolding marks
Agrees-marks_none [] [] h = tt
Agrees-marks_none [] (x ∷ b) h = absurd (omega arith)
Agrees-marks_none (c ∷ t) [] h = absurd (omega arith)
Agrees-marks_none (c ∷ t) (x ∷ b) h = (λ e. cc, Agrees-marks_none t b (omega arith))

pub repeats-le : (c : Cell) (ms : List Mark) → repeats c ms ≤ length ms
unfolding repeats
repeats-le c [] = omega arith
repeats-le c ((d, changed) ∷ ms) = ground (arith, repeats-le c ms)

-- The cells that a run collapses are one cell.
pub targets-repeats :
    (c : Cell) (ms : List Mark)
    → replicate (repeats c ms) c ++ targets (drop (repeats c ms) ms) ≡ targets ms
unfolding repeats
targets-repeats c [] = refl
targets-repeats c ((d, changed) ∷ ms) = elim (Bool-cases (cell_eq d c && changed)) [
  | inl e ↦
      let same : d ≡ c = cell_eq-eq d c (ground arith) in
      rw e (ap₂ (λ (x : Cell) (r : List Cell). x ∷ r) (sym same) (targets-repeats c ms))
  | inr e ↦ rw e refl
]

pub Agrees-drop :
    (n : ℕ) (xs : List Cell) (ms : List Mark)
    → Agrees xs ms
    → n ≤ length ms
    → (Agrees (drop n xs) (drop n ms)) × (length (take n xs) ≡ n)
Agrees-drop zero xs ms h l = (h, refl)
Agrees-drop (suc n) [] [] h l = absurd (omega arith)
Agrees-drop (suc n) [] (m ∷ ms) h l = absurd h
Agrees-drop (suc n) (x ∷ xs) [] h l = absurd h
Agrees-drop (suc n) (x ∷ xs) ((c, b) ∷ ms) h l =
    let (p, q) = Agrees-drop n xs ms h.1 (omega arith) in (p, ap suc q)

pub texts-drop :
    (n : ℕ) (ms : List Mark) → All TextOk (targets ms) → All TextOk (targets (drop n ms))
texts-drop zero ms h = h
texts-drop (suc n) [] h = tt
texts-drop (suc n) (m ∷ ms) h = texts-drop n ms h.1

pub texts-push : (cs : List Cell) (c : Cell) → All TextOk cs → TextOk c → All TextOk (cs ++ c ∷ [])
texts-push [] c h k = (k, tt)
texts-push (d ∷ cs) c h k = (h.0, texts-push cs c h.1 k)

pub start_of-eq :
    (literal : List Cell) (start col : ℕ)
    → start + length literal ≡ col
    → start_of literal start col ≡ start
start_of-eq [] start col h = omega arith
start_of-eq (c ∷ literal) start col h = refl
