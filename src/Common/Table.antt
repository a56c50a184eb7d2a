-- ===== src/Common/Table.antt =====
-- A database table is the list of its rows in the order of insertion; the SQL statements that the
-- program sends are these operations on it.
pub mod Rows
pub mod Counts
pub mod Found
pub mod Writes
use Prim.Native.Nat.{ℕ, suc, ◌+◌, ◌≤◌}
use mathlib.Core.Path.{◌≡◌, refl, subst}
use mathlib.Core.Logic.{inl, inr}
use mathlib.Core.Bool.{Bool, true, false, ◌||◌}
use mathlib.Core.Option.{Option, none, some}
use mathlib.Core.List.{List, [], ◌∷◌, ◌++◌}
use native.Mathlib.Omega.{arith}
use cloudrail.Common.Tests.{if◌then◌else◌, Bool-cases}
use cloudrail.Common.Lists.{All}

module _ {ℓ} {A : Type ℓ} where
  -- SELECT ... WHERE p, one row
  unfoldable pub find : (A → Bool) → List A → Option A
  find p [] = none
  find p (x ∷ xs) = if p x then some x else find p xs

  -- SELECT count(*) ... WHERE p
  unfoldable pub count : (A → Bool) → List A → ℕ
  count p [] = 0
  count p (x ∷ xs) = let rest = count p xs in if p x then suc rest else rest

  -- SELECT EXISTS(SELECT 1 ... WHERE p)
  unfoldable pub exists : (A → Bool) → List A → Bool
  exists p [] = false
  exists p (x ∷ xs) = p x || exists p xs

  -- UPDATE ... SET f WHERE p
  unfoldable pub update : (A → Bool) → (A → A) → List A → List A
  update p f [] = []
  update p f (x ∷ xs) = (if p x then f x else x) ∷ update p f xs

  -- DELETE ... WHERE p
  unfoldable pub delete : (A → Bool) → List A → List A
  delete p [] = []
  delete p (x ∷ xs) = let rest = delete p xs in if p x then rest else x ∷ rest

  -- SELECT ... WHERE p, all rows
  unfoldable pub select : (A → Bool) → List A → List A
  select p [] = []
  select p (x ∷ xs) = let rest = select p xs in if p x then x ∷ rest else rest

  -- the earlier of two rows in an order given by `before`; the first where neither is
  abbrev pub earlier : (A → A → Bool) → A → Option A → A
  earlier before x none = x
  earlier before x (some y) = if before y x then y else x

  -- SELECT ... WHERE p ORDER BY before LIMIT 1
  unfoldable pub first_by : (A → A → Bool) → (A → Bool) → List A → Option A
  first_by before p [] = none
  first_by before p (x ∷ xs) =
      let rest = first_by before p xs in if p x then some (earlier before x rest) else rest

module _ {ℓ} {A : Type ℓ} where
  -- What a row becomes under an update.
  abbrev pub updated : (A → Bool) → (A → A) → Option A → Option A
  updated p f none = none
  updated p f (some x) = some (if p x then f x else x)

  -- An update that keeps the columns a query reads does not change which row it finds.
  pub find-update :
      (q p : A → Bool) (f : A → A) (xs : List A)
      → ((x : A) → q (f x) ≡ q x)
      → find q (update p f xs) ≡ updated p f (find q xs)
  unfolding find update
  find-update q p f [] k = refl
  find-update q p f (x ∷ xs) k = ground (arith, k x, find-update q p f xs k)

  pub find-append :
      (q : A → Bool) (xs : List A) (y : A)
      → find q (xs ++ y ∷ [])
        ≡ elim (find q xs) [ none ↦ if q y then some y else none | some x ↦ some x ]
  unfolding find
  find-append q [] y = refl
  find-append q (x ∷ xs) y = ground (arith, find-append q xs y)

  pub count-update :
      (q p : A → Bool) (f : A → A) (xs : List A)
      → ((x : A) → q (f x) ≡ true → q x ≡ true)
      → count q (update p f xs) ≤ count q xs
  unfolding count update
  count-update q p f [] k = omega arith
  count-update q p f (x ∷ xs) k = ground (arith, k x, count-update q p f xs k)

  pub count-append :
      (q : A → Bool) (xs : List A) (y : A)
      → count q (xs ++ y ∷ []) ≡ count q xs + (if q y then 1 else 0)
  unfolding count
  count-append q [] y = ground arith
  count-append q (x ∷ xs) y = ground (arith, count-append q xs y)

  -- The row that a query finds satisfies its condition.
  pub find_sound : (q : A → Bool) (xs : List A) {x : A} → find q xs ≡ some x → q x ≡ true
  unfolding find
  find_sound q [] e = cc
  find_sound q (y ∷ xs) {x = x} e = ground (arith, find_sound q xs {x = x})

  pub find-none : (q : A → Bool) (xs : List A) → find q xs ≡ none → All (λ x. q x ≡ false) xs
  unfolding find
  find-none q [] e = tt
  find-none q (y ∷ xs) e = elim (Bool-cases (q y)) [
    | inl h ↦ ground arith
    | inr h ↦ (h, find-none q xs (ground arith))
  ]

  pub exists-false : (q : A → Bool) (xs : List A) → exists q xs ≡ false → All (λ x. q x ≡ false) xs
  unfolding exists
  exists-false q [] e = tt
  exists-false q (y ∷ xs) e = (ground arith, exists-false q xs (ground arith))

module _ {ℓ κ} {A : Type ℓ} (P : A → Type κ) where
  pub All-find : (q : A → Bool) (xs : List A) {x : A} → All P xs → find q xs ≡ some x → P x
  unfolding find
  All-find q [] h e = absurd (cc)
  All-find q (y ∷ xs) {x = x} (k, h) e = elim (Bool-cases (q y)) [
    | inl t ↦ subst P (ground arith) k
    | inr t ↦ All-find q xs h (ground arith)
  ]

  pub All-update :
      (p : A → Bool) (f : A → A) (xs : List A)
      → ((x : A) → P x → p x ≡ true → P (f x))
      → All P xs
      → All P (update p f xs)
  unfolding update
  All-update p f [] k h = tt
  All-update p f (x ∷ xs) k (a, h) =
      (elim (Bool-cases (p x)) [ inl t ↦ rw t (k x a t) | inr t ↦ rw t a ], All-update p f xs k h)
