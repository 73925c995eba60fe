-- ===== src/Sync/Input.antt =====
-- crates/oxutrm-sync/src/input.rs: the client's input on its way to the host.
pub mod Overlap
pub mod Contract
pub mod RoundTrip
use oxutrm.Base.{
  ℕ, zero, suc, ◌-◌, min, ℕ_discrete, Bool, true, false, ◌&&◌, ◌==◌, List, [], ◌∷◌, ◌++◌, Option,
  none, some, length, take, drop, if◌then◌else◌, ite, not, Result, ok, err,
}
use oxutrm.Proto.Types.{ApplyError, Checked, TermSize, TermSize-discrete, seq_zero, base_mismatch}
use oxutrm.Proto.Frame.{Bytes}
use oxutrm.Sync.State.{SyncState}
use oxutrm.Sync.Channel.{u64_max}

pub record InputState : Type 0 where
  pub seq : ℕ  -- u64
  pub pending : Bytes
  pub size : TermSize

pub record InputDiff : Type 0 where
  pub consumed : ℕ  -- u64
  pub appended : Bytes
  pub size : Option TermSize

-- `usize` on the 64-bit targets.
abbrev pub usize_max : ℕ
usize_max = u64_max

unfoldable pub append : Bytes → TermSize → InputState → InputState
append bytes size s = record s { pending = s.pending ++ bytes; size = size }

unfoldable pub consume : ℕ → InputState → InputState
consume n s = record s { pending = drop (min n (length s.pending)) s.pending }

unfoldable pub validate : InputState → Checked
validate s = if s.seq == 0 then err seq_zero else ok tt

-- `==` on byte slices.
unfoldable pub bytes_eq : Bytes → Bytes → Bool
bytes_eq [] [] = true
bytes_eq (a ∷ xs) (b ∷ ys) = a == b && bytes_eq xs ys
bytes_eq _ _ = false

-- The last k bytes of the base are the first k of the new state's.
unfoldable pub overlaps : ℕ → Bytes → Bytes → Bool
unfolding bytes_eq
overlaps k base new = bytes_eq (drop (length base - k) base) (take k new)

-- `for k in (0..=max).rev()`.
unfoldable pub largest_overlap : ℕ → Bytes → Bytes → ℕ
largest_overlap zero base new = 0
largest_overlap (suc k) base new =
    if overlaps (suc k) base new then suc k else largest_overlap k base new

unfoldable pub diff_from : InputState → InputState → InputDiff
diff_from s base =
    let overlap =
      largest_overlap (min (length base.pending) (length s.pending)) base.pending s.pending in
    record {
      consumed = length base.pending - overlap;
      appended = drop overlap s.pending;
      size = ite (TermSize-discrete s.size base.size) none (some s.size);
    }

unfoldable pub full_diff : InputState → InputDiff
full_diff s = record { consumed = u64_max; appended = s.pending; size = some s.size }

abbrev pub or_old {ℓ} : {A : Type ℓ} → Option A → A → A
or_old none old = old
or_old (some new) old = new

unfoldable pub apply : InputState → ℕ → ℕ → InputDiff → Result ApplyError InputState
apply s base target d =
    if not (base == 0) && not (base == s.seq)
    then err (base_mismatch base s.seq)
    else ok (record {
      seq = target;
      pending = drop (min (min d.consumed usize_max) (length s.pending)) s.pending ++ d.appended;
      size = or_old d.size s.size;
    })

unfoldable pub input_ops : SyncState InputState InputDiff
input_ops = record {
  seq = λ s. s.seq;
  set_seq = λ n s. record s { seq = n };
  validate_transition = λ s _. validate s;
  diff_from = diff_from;
  full_diff = full_diff;
  apply = apply;
}
