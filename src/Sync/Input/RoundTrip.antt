-- ===== src/Sync/Input/RoundTrip.antt =====
-- What a diff of the input queue is worth: it rebuilds the new state, with the fewest new bytes.
use oxutrm.Base.{
  ℕ, ◌-◌, ◌≤◌, min, ◌≡◌, ap, subst, ◌∙◌, true, ◌++◌, length, drop, arith, ok, length-append,
  length-drop, take-append_exact,
}
use oxutrm.Proto.Frame.{Bytes}
use oxutrm.Sync.Input.{
  InputState, InputDiff, overlaps, largest_overlap, diff_from, full_diff, apply, usize_max,
}
use oxutrm.Sync.Input.Overlap.{bytes_eq_refl, largest_overlap-max}
use oxutrm.Sync.Input.Contract.{IsInput, apply-diff_from, apply-full_diff}

-- Bytes that begin with a tail of the base overlap it by that tail.
overlaps_tail :
    (j : ℕ) (base rest : Bytes)
    → j ≤ length base
    → overlaps j base (drop (length base - j) base ++ rest) ≡ true
unfolding overlaps
overlaps_tail j base rest h =
    let tail = drop (length base - j) base in
    let size : length tail ≡ j = omega (arith, length-drop (length base - j) base) in
    rw (take-append_exact j tail rest size) (bytes_eq_refl tail)

module _ (s base : InputState) where
  consumes :
      (n : ℕ) (rest : Bytes)
      → n ≤ length base.pending
      → drop n base.pending ++ rest ≡ s.pending
      → length (diff_from s base).appended ≤ length rest
  unfolding diff_from
  consumes n rest le e =
      let j = length base.pending - n in
      let back : length base.pending - j ≡ n = omega arith in
      let hit : overlaps j base.pending s.pending ≡ true =
        subst (λ xs. overlaps j base.pending xs ≡ true)
          (ap (λ k. drop k base.pending ++ rest) back ∙ e)
          (overlaps_tail j base.pending rest (omega arith)) in
      let size = ap (λ (xs : Bytes). length xs) e in
      let most = min (length base.pending) (length s.pending) in
      let best =
        largest_overlap-max most j base.pending s.pending
          (omega
            (arith, size, length-append (drop n base.pending) rest, length-drop n base.pending))
          hit in
      omega (
        arith,
        best,
        size,
        length-append (drop n base.pending) rest,
        length-drop n base.pending,
        length-drop (largest_overlap most base.pending s.pending) s.pending,
      )

  fewest :
      (d : InputDiff)
      → apply base base.seq s.seq d ≡ ok s
      → length (diff_from s base).appended ≤ length d.appended
  unfolding apply
  fewest d h =
      consumes (min (min d.consumed usize_max) (length base.pending)) d.appended (omega arith)
        (ground arith)

-- Between two states of the input queue whose base is legal: the diff, applied to its base, gives
-- the new state, and the full diff gives it over any legal state. Of all diffs that lead from the
-- base to the new state, such as `d` here, none appends fewer bytes than the one that is sent.
pub input_diff_round_trip :
    (s base held : InputState) (d : InputDiff)
    → IsInput base
    → IsInput held
    → apply base base.seq s.seq d ≡ ok s
    → (apply base base.seq s.seq (diff_from s base) ≡ ok s)
      × (apply held 0 s.seq (full_diff s) ≡ ok s)
      × (length (diff_from s base).appended ≤ length d.appended)
input_diff_round_trip s base held d was legal leads =
    (apply-diff_from s base was, apply-full_diff s held legal, fewest s base d leads)
