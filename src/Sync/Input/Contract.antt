-- ===== src/Sync/Input/Contract.antt =====
-- The input state keeps the contract of the sync layer.
use oxutrm.Base.{
  ℕ, ◌-◌, ◌≤◌, min, ◌≡◌, ◌≢◌, refl, sym, ap, ap₂, not, ◌&&◌, ◌==◌, ◌∙◌, false, ◌++◌, length, none,
  some, drop, arith, ite, if_pos, if_neg, Result, ok,
}
use oxutrm.Proto.Types.{ApplyError, TermSize, TermSize-discrete}
use oxutrm.Proto.Frame.{Bytes}
use oxutrm.Sync.State.{Lawful}
use oxutrm.Sync.Channel.{u64_max}
use oxutrm.Sync.Input.{
  InputState, InputDiff, validate, diff_from, full_diff, apply, or_old, input_ops, largest_overlap,
}
use oxutrm.Sync.Input.Overlap.{largest_overlap-rebuilds, drop_all}

pub record IsInput (s : InputState) : Type 0 where
  pub numbered : s.seq ≢ 0
  pub fits : length s.pending ≤ u64_max

or_old_same :
    (new old : TermSize) → or_old (ite (TermSize-discrete new old) none (some new)) old ≡ new
or_old_same new old = elim (TermSize-discrete new old) [
  | yes e ↦ rw (if_pos _ e) (sym e)
  | no e ↦ rw (if_neg _ e) refl
]

same_base : (n : ℕ) → (not (n == 0) && not (n == n)) ≡ false
same_base n = ground arith

module _ (s : InputState) where
  rebuilt :
      (p : Bytes) (z : TermSize)
      → p ≡ s.pending
      → z ≡ s.size
      → ◌≡◌ {A = Result ApplyError InputState}
          (ok (record { seq = s.seq; pending = p; size = z }))
          (ok s)
  rebuilt p z e f =
      ap₂ (λ (q : Bytes) (y : TermSize). ok (record { seq = s.seq; pending = q; size = y })) e f

  pub apply-diff_from :
      (base : InputState) → IsInput base → apply base base.seq s.seq (diff_from s base) ≡ ok s
  unfolding apply diff_from
  apply-diff_from base legal =
      let most = min (length base.pending) (length s.pending) in
      let k = largest_overlap most base.pending s.pending in
      let count : min (min (length base.pending - k) u64_max) (length base.pending)
          ≡ length base.pending - k =
        omega (arith, legal.fits) in
      rw (same_base base.seq) (
        rebuilt _ _
          (ap (λ n. drop n base.pending ++ drop k s.pending) count
            ∙ largest_overlap-rebuilds most base.pending s.pending)
          (or_old_same s.size base.size))

  pub apply-full_diff : (held : InputState) → IsInput held → apply held 0 s.seq (full_diff s) ≡ ok s
  unfolding apply full_diff
  apply-full_diff held legal =
      let all : min (min u64_max u64_max) (length held.pending) ≡ length held.pending =
        omega (arith, legal.fits) in
      rebuilt _ _
        (ap (λ n. drop n held.pending ++ s.pending) all
          ∙ ap (λ (xs : Bytes). xs ++ s.pending) (drop_all held.pending))
        refl

  pub apply_numbered :
      (t : InputState) (base target : ℕ) (d : InputDiff)
      → apply s base target d ≡ ok t
      → t.seq ≡ target
  unfolding apply
  apply_numbered t base target d h = ground arith

  pub apply_mismatch :
      (t : InputState) (base target : ℕ) (d : InputDiff)
      → base ≢ 0
      → base ≢ s.seq
      → apply s base target d ≢ ok t
  unfolding apply
  apply_mismatch t base target d nz ne = ground arith

-- The host's input queue and the client's are one replicated value: both halves of the diff are
-- inverse, and a diff for another base is refused.
unfoldable pub input_lawful : Lawful input_ops
unfolding input_ops validate
input_lawful = record {
  Legal = IsInput;
  Follows = λ _ _. Unit {0};
  follows_trans = λ _ _ _ _ _. tt;
  seq-set_seq = λ _ _. refl;
  transition_ok = λ s _ legal _. ground (arith, legal.numbered);
  apply-diff_from = λ s base _ legal. apply-diff_from s base legal;
  apply_numbered = apply_numbered;
  apply_mismatch = apply_mismatch;
  apply-full_diff = λ s held _ legal. apply-full_diff s held legal;
}
