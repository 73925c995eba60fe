-- ===== src/Sync/State.antt =====
-- crates/oxutrm-sync/src/lib.rs: the trait `SyncState`, and what an implementation promises.
use oxutrm.Base.{ℕ, ◌≡◌, ◌≢◌, Result, ok}
use oxutrm.Proto.Types.{ApplyError, Checked}

-- Both rings are this deep.
abbrev pub state_ring : ℕ
state_ring = 32

-- The trait, `S` the replicated value and `D` its `Diff`.
pub record SyncState (S D : Type 0) : Type 0 where
  pub seq : S → ℕ
  pub set_seq : ℕ → S → S
  pub validate_transition : S → S → Checked
  pub diff_from : S → S → D
  pub full_diff : S → D
  pub apply : S → ℕ → ℕ → D → Result ApplyError S

-- The contract of the trait. `Legal` is what `validate` and the types guarantee of one value, and
-- `Follows next previous` what `validate_transition` asks of two.
pub record Lawful {S D : Type 0} (ops : SyncState S D) : Type 1 where
  pub Legal : S → Type 0
  pub Follows : S → S → Type 0
  pub follows_trans : (s t u : S) → Follows s t → Follows t u → Follows s u
  pub seq-set_seq : (n : ℕ) (s : S) → ops.seq (ops.set_seq n s) ≡ n
  pub transition_ok : (s t : S) → Legal s → Follows s t → ops.validate_transition s t ≡ ok tt
  pub apply-diff_from :
      (s base : S)
      → Legal s
      → Legal base
      → ops.apply base (ops.seq base) (ops.seq s) (ops.diff_from s base) ≡ ok s
  pub apply_numbered :
      (held t : S) (base target : ℕ) (d : D)
      → ops.apply held base target d ≡ ok t
      → ops.seq t ≡ target
  pub apply_mismatch :
      (held t : S) (base target : ℕ) (d : D)
      → base ≢ 0
      → base ≢ ops.seq held
      → ops.apply held base target d ≢ ok t
  pub apply-full_diff :
      (s held : S) → Legal s → Legal held → ops.apply held 0 (ops.seq s) (ops.full_diff s) ≡ ok s
