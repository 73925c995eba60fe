-- ===== src/Sync/Link/Authored.antt =====
-- The states that the host ever held: their numbers name them.
use mathlib.Core.List.{Memᴰ}
use oxutrm.Base.{◌≤◌, ◌<◌, ◌≡◌, sym, ap, subst, ◌∙◌, List, [], ◌∷◌, All, arith}
use oxutrm.Sync.State.{SyncState, Lawful}
use oxutrm.Sync.Link.Rings.{All-mem, All-map}

module _ {S D : Type 0} {ops : SyncState S D} (laws : Lawful ops) where
  open ops use {seq}
  open laws use {Legal, Follows}

  -- The latest first, and each a legal successor of all before it.
  abbrev pub IsHistory : List S → Type 0
  IsHistory [] = Unit
  IsHistory (x ∷ xs) =
      Legal x × (0 < seq x) × All (λ y. Follows x y × (seq y < seq x)) xs × IsHistory xs

  abbrev pub Latest : List S → S → Type 0
  Latest [] s = ⊥
  Latest (x ∷ xs) s = x ≡ s

  pub history_legal : (xs : List S) {x : S} → IsHistory xs → Memᴰ x xs → Legal x × (0 < seq x)
  history_legal [] h m = elim m [ ]
  history_legal (y ∷ xs) h (Memᴰ.head e) = subst (λ z. Legal z × (0 < seq z)) (sym e) (h.0, h.1)
  history_legal (y ∷ xs) h (Memᴰ.tail m) = history_legal xs h.3 m

  pub history_unique :
      (xs : List S) {x y : S} → IsHistory xs → Memᴰ x xs → Memᴰ y xs → seq x ≡ seq y → x ≡ y
  history_unique [] h m n e = elim m [ ]
  history_unique (z ∷ xs) h (Memᴰ.head p) (Memᴰ.head q) e = p ∙ sym q
  history_unique (z ∷ xs) h (Memᴰ.head p) (Memᴰ.tail n) e =
      absurd (omega (arith, (All-mem _ xs h.2 n).1, ap seq p))
  history_unique (z ∷ xs) h (Memᴰ.tail m) (Memᴰ.head q) e =
      absurd (omega (arith, (All-mem _ xs h.2 m).1, ap seq q))
  history_unique (z ∷ xs) h (Memᴰ.tail m) (Memᴰ.tail n) e = history_unique xs h.3 m n e

  pub history_follows :
      (xs : List S) {x y : S} → IsHistory xs → Memᴰ x xs → Memᴰ y xs → seq y < seq x → Follows x y
  history_follows [] h m n l = elim m [ ]
  history_follows (z ∷ xs) h (Memᴰ.head p) (Memᴰ.head q) l =
      absurd (omega (arith, ap seq p, ap seq q))
  history_follows (z ∷ xs) {y = y} h (Memᴰ.head p) (Memᴰ.tail n) l =
      subst (λ w. Follows w y) (sym p) (All-mem _ xs h.2 n).0
  history_follows (z ∷ xs) h (Memᴰ.tail m) (Memᴰ.head q) l =
      absurd (omega (arith, (All-mem _ xs h.2 m).1, ap seq q))
  history_follows (z ∷ xs) h (Memᴰ.tail m) (Memᴰ.tail n) l = history_follows xs h.3 m n l

  pub history_le : (xs : List S) {x s : S} → IsHistory xs → Latest xs s → Memᴰ x xs → seq x ≤ seq s
  history_le [] h l m = elim m [ ]
  history_le (z ∷ xs) h l (Memᴰ.head p) = omega (arith, ap seq p, ap seq l)
  history_le (z ∷ xs) h l (Memᴰ.tail m) = omega (arith, (All-mem _ xs h.2 m).1, ap seq l)

  pub Latest-mem : (xs : List S) {s : S} → Latest xs s → Memᴰ s xs
  Latest-mem [] l = elim l [ ]
  Latest-mem (z ∷ xs) l = Memᴰ.head (sym l)

  -- A new state that follows the latest one extends the history.
  pub IsHistory-push :
      (xs : List S) (s x : S)
      → IsHistory xs
      → Latest xs s
      → Legal x
      → Follows x s
      → seq s < seq x
      → IsHistory (x ∷ xs)
  IsHistory-push [] s x h l p q r = elim l [ ]
  IsHistory-push (z ∷ xs) s x h l p q r =
      let over : Follows x z = subst (Follows x) (sym l) q in
      (
        p,
        omega arith,
        (
          (over, omega (arith, ap seq l)),
          All-map xs
              (λ y older. (laws.follows_trans x z y over older.0, omega (arith, older.1, ap seq l)))
              h.2,
        ),
        h,
      )
