-- ===== src/Sync/Link/Rings.antt =====
-- The order of a ring's sequence numbers, and what trimming and pruning keep.
use mathlib.Core.List.{Memᴰ}
pub use oxutrm.Base.{All-map}
use oxutrm.Base.{
  ℕ, suc, ◌+◌, ◌≤◌, ◌<◌, ◌≡◌, refl, sym, ap, subst, inl, inr, List, [], ◌∷◌, ◌++◌, none, some, All,
  Bool-cases, Bool, true, false, ltb, length, find, arith, tests,
}
use oxutrm.Sync.Channel.{entries, trim}

module _ {ℓ κ} {A : Type ℓ} where
  pub All-mem : (P : A → Type κ) (xs : List A) {x : A} → All P xs → Memᴰ x xs → P x
  All-mem P [] h m = elim m [ ]
  All-mem P (y ∷ xs) h (Memᴰ.head e) = subst P (sym e) h.0
  All-mem P (y ∷ xs) h (Memᴰ.tail m) = All-mem P xs h.1 m

  pub All-append_one :
      (P : A → Type κ) (xs : List A) (x : A) → All P xs → P x → All P (xs ++ x ∷ [])
  All-append_one P [] x h p = (p, tt)
  All-append_one P (y ∷ xs) x h p = (h.0, All-append_one P xs x h.1 p)

pub mem_last {ℓ} : {A : Type ℓ} (xs : List A) (x : A) → Memᴰ x (xs ++ x ∷ [])
mem_last [] x = Memᴰ.head refl
mem_last (y ∷ xs) x = Memᴰ.tail (mem_last xs x)

module _ {κ} {S : Type 0} (P : S → Type κ) where
  -- Trimming keeps a suffix.
  pub All-trim :
      (room : ℕ) (older : List S) (newest : S)
      → All P older
      → P newest
      → All P (entries (trim room older newest))
  unfolding trim
  All-trim room [] newest h p = (p, tt)
  All-trim room (x ∷ older) newest h p = elim (Bool-cases (ltb room (length (x ∷ older) + 1))) [
    | inl e ↦ rw e (All-trim room older newest h.1 p)
    | inr e ↦ rw e (h.0, All-append_one P older newest h.1 p)
  ]

module _ {S : Type 0} where
  pub newest-trim :
      (room : ℕ) (older : List S) (newest : S) → (trim room older newest).newest ≡ newest
  unfolding trim
  newest-trim room [] newest = refl
  newest-trim room (x ∷ older) newest = ground (arith, newest-trim room older newest)

module _ {ℓ} {A : Type ℓ} (p : A → Bool) where
  pub find-some : (xs : List A) {y : A} → find p xs ≡ some y → Memᴰ y xs × (p y ≡ true)
  find-some [] h = cc
  find-some (x ∷ xs) {y} h = elim (Bool-cases (p x)) [
    | inl e ↦
        let same : some x ≡ some y = (rw e at h) in
        let is : x ≡ y = cc in (Memᴰ.head (sym is), subst (λ z. p z ≡ true) is e)
    | inr e ↦ let rest = find-some xs (rw e at h) in (Memᴰ.tail rest.0, rest.1)
  ]

  pub find-none : (xs : List A) {y : A} → find p xs ≡ none → Memᴰ y xs → p y ≡ false
  find-none [] h m = elim m [ ]
  find-none (x ∷ xs) {y} h (Memᴰ.head e) = elim (Bool-cases (p x)) [
    | inl t ↦ cc (rw t at h)
    | inr f ↦ subst (λ z. p z ≡ false) (sym e) f
  ]
  find-none (x ∷ xs) h (Memᴰ.tail m) = elim (Bool-cases (p x)) [
    | inl t ↦ cc (rw t at h)
    | inr f ↦ find-none xs (rw f at h) m
  ]

module _ {S : Type 0} (seq : S → ℕ) where
  -- Sequence numbers one after another, from `n` on.
  abbrev pub Consecutive : ℕ → List S → Type 0
  Consecutive n [] = Unit
  Consecutive n (x ∷ xs) = (seq x ≡ n) × Consecutive (suc n) xs

  -- Sequence numbers that rise, all of them above `b`, up to the newest entry.
  abbrev pub Rising : ℕ → List S → S → Type 0
  Rising b [] newest = b < seq newest
  Rising b (x ∷ older) newest = (b < seq x) × Rising (seq x) older newest

  -- Some entry has the number.
  abbrev pub Held : ℕ → List S → Type 0
  Held n xs = (x : S) × Memᴰ x xs × (seq x ≡ n)

  Rising-room :
      (b : ℕ) (older : List S) (newest : S) → Rising b older newest → b + length older < seq newest
  Rising-room b [] newest h = omega arith
  Rising-room b (x ∷ older) newest h = omega (arith, Rising-room (seq x) older newest h.1)

  pub Rising-weaken :
      (a b : ℕ) (older : List S) (newest : S)
      → a ≤ b
      → Rising b older newest
      → Rising a older newest
  Rising-weaken a b [] newest h r = omega arith
  Rising-weaken a b (x ∷ older) newest h r = (omega arith, r.1)

  pub Rising-trim :
      (room b : ℕ) (older : List S) (newest : S)
      → Rising b older newest
      → Rising b (trim room older newest).older (trim room older newest).newest
  unfolding trim
  Rising-trim room b [] newest r = r
  Rising-trim room b (x ∷ older) newest r = elim (Bool-cases (ltb room (length (x ∷ older) + 1))) [
    | inl e ↦
        rw e (Rising-weaken b (seq x) _ _ (omega arith) (Rising-trim room (seq x) older newest r.1))
    | inr e ↦ rw e r
  ]

  -- A ring with room for a whole window of numbers never drops one from inside that window.
  pub Held-trim :
      (room b n : ℕ) (older : List S) (newest : S)
      → Rising b older newest
      → seq newest < n + room
      → Held n (older ++ newest ∷ [])
      → Held n (entries (trim room older newest))
  unfolding trim
  Held-trim room b n [] newest r h m = m
  Held-trim room b n (x ∷ older) newest r h (y, Memᴰ.head e, f) =
      elim (Bool-cases (ltb room (length (x ∷ older) + 1))) [
        | inl over ↦ absurd (omega (tests, Rising-room (seq x) older newest r.1, ap seq e))
        | inr fits ↦ rw fits (y, Memᴰ.head e, f)
      ]
  Held-trim room b n (x ∷ older) newest r h (y, Memᴰ.tail m, f) =
      elim (Bool-cases (ltb room (length (x ∷ older) + 1))) [
        | inl over ↦ rw over (Held-trim room (seq x) n older newest r.1 h (y, m, f))
        | inr fits ↦ rw fits (y, Memᴰ.tail m, f)
      ]

  pub Rising-push :
      (b : ℕ) (older : List S) (newest next : S)
      → Rising b older newest
      → seq newest < seq next
      → Rising b (older ++ newest ∷ []) next
  Rising-push b [] newest next r h = (r, h)
  Rising-push b (x ∷ older) newest next r h = (r.0, Rising-push (seq x) older newest next r.1 h)

  Consecutive-last :
      (lo : ℕ) (older : List S) (newest : S)
      → Consecutive lo (older ++ newest ∷ [])
      → seq newest ≡ lo + length older
  Consecutive-last lo [] newest h = omega arith
  Consecutive-last lo (x ∷ older) newest h =
      omega (arith, Consecutive-last (suc lo) older newest h.1)

  Consecutive-above :
      (b lo : ℕ) (xs : List S) → b ≤ lo → Consecutive lo xs → All (λ x. b ≤ seq x) xs
  Consecutive-above b lo [] h c = tt
  Consecutive-above b lo (x ∷ xs) h c =
      (omega arith, Consecutive-above b (suc lo) xs (omega arith) c.1)

  -- The ring as a run of consecutive numbers.
  abbrev pub IsRun : List S → Type 0
  IsRun xs = (lo : ℕ) × Consecutive lo xs

  pub IsRun-trim :
      (room lo : ℕ) (older : List S) (newest : S)
      → Consecutive lo (older ++ newest ∷ [])
      → IsRun (entries (trim room older newest))
  unfolding trim
  IsRun-trim room lo [] newest c = (lo, c)
  IsRun-trim room lo (x ∷ older) newest c = elim (Bool-cases (ltb room (length (x ∷ older) + 1))) [
    | inl e ↦ rw e (IsRun-trim room (suc lo) older newest c.1)
    | inr e ↦ rw e (lo, c)
  ]

  -- What a trimmed run still holds is within `room` of the newest number.
  pub within-trim :
      (room lo : ℕ) (older : List S) (newest : S)
      → 0 < room
      → Consecutive lo (older ++ newest ∷ [])
      → All (λ x. seq newest < seq x + room) (entries (trim room older newest))
  unfolding trim
  within-trim room lo [] newest h c = (omega arith, tt)
  within-trim room lo (x ∷ older) newest h c =
      elim (Bool-cases (ltb room (length (x ∷ older) + 1))) [
        | inl e ↦ rw e (within-trim room (suc lo) older newest h c.1)
        | inr e ↦ rw e (
            All-map (x ∷ older ++ newest ∷ [])
              (λ y (above : lo ≤ seq y). omega (tests, Consecutive-last lo (x ∷ older) newest c))
              (Consecutive-above lo lo (x ∷ older ++ newest ∷ []) (omega arith) c))
      ]

  pub Consecutive-push :
      (lo : ℕ) (older : List S) (newest next : S)
      → Consecutive lo (older ++ newest ∷ [])
      → seq next ≡ suc (seq newest)
      → Consecutive lo ((older ++ newest ∷ []) ++ next ∷ [])
  Consecutive-push lo [] newest next c h = (c.0, (omega arith, tt))
  Consecutive-push lo (x ∷ older) newest next c h =
      (c.0, Consecutive-push (suc lo) older newest next c.1 h)
