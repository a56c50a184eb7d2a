-- ===== src/Common/Table/Found.antt =====
-- What upserts and deletions do to the rows of a table, and to the row that a query finds.
use mathlib.Core.Path.{◌≡◌, refl, ◌∙◌}
use mathlib.Core.Logic.{inl, inr}
use mathlib.Core.Bool.{Bool, true, false}
use mathlib.Core.Option.{Option, none, some}
use mathlib.Core.List.{List, [], ◌∷◌, ◌++◌}
use native.Mathlib.Omega.{arith}
use cloudrail.Common.Tests.{Bool-cases, Option-cases}
use cloudrail.Common.Lists.{All, All-append, All-map}
use cloudrail.Common.Table.{
  find, exists, update, delete, select, All-find, All-update, exists-false, find_sound, none,
  updated, find-update, find-append,
}
use cloudrail.Common.Table.Writes.{exists-upserted, find-exists, upsert}

module _ {ℓ κ} {A : Type ℓ} (P : A → Type κ) where
  All-appended : (xs : List A) (y : A) → All P xs → P y → All P (xs ++ y ∷ [])
  All-appended [] y h k = (k, tt)
  All-appended (x ∷ xs) y (a, h) k = (a, All-appended xs y h k)

  pub All-upsert :
      (p : A → Bool) (f : A → A) (y : A) (xs : List A)
      → ((x : A) → P x → p x ≡ true → P (f x))
      → P y
      → All P xs
      → All P (upsert p f y xs)
  unfolding upsert
  All-upsert p f y xs k l h = elim (Bool-cases (exists p xs)) [
    | inl t ↦ rw t (All-update P p f xs k h)
    | inr t ↦ rw t (All-appended xs y h l)
  ]

module _ {ℓ κ μ} {A : Type ℓ} (P : A → Type κ) (Q : A → Type μ) where
  -- What a deletion makes of a predicate, from the rows that it leaves.
  pub All-delete-to :
      (p : A → Bool) (xs : List A)
      → ((x : A) → P x → p x ≡ false → Q x)
      → All P xs
      → All Q (delete p xs)
  unfolding delete
  All-delete-to p [] k h = tt
  All-delete-to p (x ∷ xs) k (a, h) = elim (Bool-cases (p x)) [
    | inl t ↦ rw t (All-delete-to p xs k h)
    | inr t ↦ rw t (k x a t, All-delete-to p xs k h)
  ]

module _ {ℓ κ μ} {A : Type ℓ} (P : A → Type κ) (Q : A → Type μ) where
  -- What holds of the rows that a query selects.
  pub All-select :
      (p : A → Bool) (xs : List A)
      → ((x : A) → P x → p x ≡ true → Q x)
      → All P xs
      → All Q (select p xs)
  unfolding select
  All-select p [] k h = tt
  All-select p (x ∷ xs) k (a, h) = elim (Bool-cases (p x)) [
    | inl t ↦ rw t (k x a t, All-select p xs k h)
    | inr t ↦ rw t (All-select p xs k h)
  ]

module _ {ℓ} {A : Type ℓ} where
  -- Each row of a table is found under its own key.
  pub own_row :
      (q : A → A → Bool) (xs : List A)
      → ((x : A) → q x x ≡ true)
      → All (λ x. exists (q x) xs ≡ true) xs
  unfolding exists
  own_row q [] k = tt
  own_row q (y ∷ xs) k = (
    rw (k y) refl,
    All-map (λ x. exists (q x) xs ≡ true) _ (λ x h. ground (arith, h)) xs (own_row q xs k),
  )

module _ {ℓ κ} {A : Type ℓ} (R : A → Type κ) (p : A → Bool) (f : A → A) (y : A) where
  -- What an upsert makes of the rows under its key.
  upserted_rows :
      (xs : List A)
      → ((x : A) → p x ≡ true → R (f x))
      → R y
      → All (λ x. p x ≡ true → R x) (upsert p f y xs)
  unfolding upsert
  upserted_rows xs k l = elim (Bool-cases (exists p xs)) [
    | inl t ↦ rw t (changed xs)
    | inr t ↦ rw t (
        All-append _ xs (y ∷ [])
          (All-map _ _ (λ x h u. absurd (cc (u, h))) xs (exists-false p xs t)) (λ _. l, tt))
  ]
    where
      changed : (zs : List A) → All (λ x. p x ≡ true → R x) (update p f zs)
      changed [] = tt
      changed (z ∷ zs) = elim (Bool-cases (p z)) [
        | inl t ↦ rw t (λ _. k z t, changed zs)
        | inr t ↦ rw t (λ u. absurd (cc (u, t)), changed zs)
      ]

  -- The row that a query finds under the key of an upsert.
  pub find-upserted :
      (xs : List A)
      → ((x : A) → p x ≡ true → p (f x) ≡ true)
      → p y ≡ true
      → ((x : A) → p x ≡ true → R (f x))
      → R y
      → (z : A) × (find p (upsert p f y xs) ≡ some z) × R z
  find-upserted xs own new k l =
      let (z, e) = find-exists p (upsert p f y xs) (exists-upserted p f y p xs own new) in
      (
        z,
        e,
        All-find _ p (upsert p f y xs) (upserted_rows xs k l) e (find_sound p (upsert p f y xs) e),
      )

module _ {ℓ} {A : Type ℓ} where
  -- A query for rows that a deletion leaves, and one for rows that it takes.
  pub find-delete :
      (q p : A → Bool) (xs : List A)
      → ((x : A) → q x ≡ true → p x ≡ false)
      → find q (delete p xs) ≡ find q xs
  unfolding find delete
  find-delete q p [] k = refl
  find-delete q p (x ∷ xs) k = ground (arith, k x, find-delete q p xs k)

  pub find-deleted :
      (q p : A → Bool) (xs : List A)
      → ((x : A) → q x ≡ true → p x ≡ true)
      → find q (delete p xs) ≡ none
  unfolding find delete
  find-deleted q p [] k = refl
  find-deleted q p (x ∷ xs) k = ground (arith, k x, find-deleted q p xs k)

  pub exists-delete-none :
      (q p : A → Bool) (xs : List A)
      → ((x : A) → q x ≡ true → p x ≡ true)
      → exists q (delete p xs) ≡ false
  unfolding exists delete
  exists-delete-none q p [] k = refl
  exists-delete-none q p (x ∷ xs) k = ground (arith, k x, exists-delete-none q p xs k)

  pub exists-delete-same :
      (q p : A → Bool) (xs : List A)
      → ((x : A) → q x ≡ true → p x ≡ false)
      → exists q (delete p xs) ≡ exists q xs
  unfolding exists delete
  exists-delete-same q p [] k = refl
  exists-delete-same q p (x ∷ xs) k = ground (arith, k x, exists-delete-same q p xs k)

  -- No row that one condition excludes satisfies a stronger one, a new row included.
  pub exists-append-none :
      (q p : A → Bool) (xs : List A) (y : A)
      → ((x : A) → q x ≡ true → p x ≡ true)
      → exists p xs ≡ false
      → q y ≡ false
      → exists q (xs ++ y ∷ []) ≡ false
  unfolding exists
  exists-append-none q p [] y k h l = rw l refl
  exists-append-none q p (x ∷ xs) y k h l = ground (arith, k x, exists-append-none q p xs y k)

  -- An upsert leaves what is found under another key.
  pub find-upsert-other :
      (q p : A → Bool) (f : A → A) (y : A) (xs : List A)
      → ((x : A) → q (f x) ≡ q x)
      → ((x : A) → q x ≡ true → p x ≡ false)
      → q y ≡ false
      → find q (upsert p f y xs) ≡ find q xs
  unfolding upsert
  find-upsert-other q p f y xs k apart new = elim (Bool-cases (exists p xs)) [
    | inl t ↦ rw t (find-update q p f xs k ∙ kept (find q xs) refl)
    | inr t ↦ rw t (elim (Option-cases (find q xs)) [
      | inl n ↦ find-append q xs y ∙ rw n (rw new refl)
      | inr (x, e) ↦ find-append q xs y ∙ rw e refl
    ])
  ]
    where
      kept : (r : Option A) → find q xs ≡ r → updated p f r ≡ r
      kept none h = refl
      kept (some x) h = rw (apart x (find_sound q xs h)) refl
