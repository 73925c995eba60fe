-- ===== src/Sync/Screen/Contract.antt =====
-- The screen keeps the contract of the sync layer.
use oxutrm.Base.{ℕ, ◌≤◌, ◌≡◌, ◌≢◌, refl, true, not, ◌&&◌, ◌==◌, ok, arith}
use oxutrm.Proto.Screen.{ScreenState, validate_transition}
use oxutrm.Proto.Screen.Valid.{validate_iff}
use oxutrm.Sync.State.{Lawful}
use oxutrm.Sync.Screen.{ScreenDiff, finish, apply, screen_ops}
use oxutrm.Sync.Screen.RoundTrip.{IsScreen, apply-diff_from, apply-full_diff}

-- What no transition may undo: I5, I6 and I9.
pub record IsLater (s t : ScreenState) : Type 0 where
  pub bell_kept : t.bell ≤ s.bell
  pub scrollback_kept : t.scrollback_len ≤ s.scrollback_len
  pub serial_kept : t.clipboard.serial ≤ s.clipboard.serial

module _ (held t : ScreenState) (base target : ℕ) (d : ScreenDiff) where
  apply_numbered : apply held base target d ≡ ok t → t.seq ≡ target
  unfolding apply finish
  apply_numbered h = ground arith

  apply_mismatch : base ≢ 0 → base ≢ held.seq → apply held base target d ≢ ok t
  unfolding apply
  apply_mismatch nz ne =
      let refused : (not (base == 0) && not (base == held.seq)) ≡ true = ground arith in
      rw refused (λ e. cc)

transition_ok : (s t : ScreenState) → IsScreen s → IsLater s t → validate_transition s t ≡ ok tt
unfolding validate_transition
transition_ok s t good later =
    rw ((validate_iff s).1 good.valid)
      (ground (arith, later.bell_kept, later.scrollback_kept, later.serial_kept))

pub screen_lawful : Lawful screen_ops
unfolding screen_ops
screen_lawful = record {
  Legal = IsScreen;
  Follows = IsLater;
  follows_trans = λ s t u p q. record {
    bell_kept = omega (arith, p.bell_kept, q.bell_kept);
    scrollback_kept = omega (arith, p.scrollback_kept, q.scrollback_kept);
    serial_kept = omega (arith, p.serial_kept, q.serial_kept);
  };
  seq-set_seq = λ _ _. refl;
  transition_ok = transition_ok;
  apply-diff_from = λ s base good was. apply-diff_from s good base was;
  apply_numbered = apply_numbered;
  apply_mismatch = apply_mismatch;
  apply-full_diff = λ s held good _. apply-full_diff s good held;
}
