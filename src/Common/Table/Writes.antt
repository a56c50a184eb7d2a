-- ===== src/Common/Table/Writes.antt =====
-- INSERT ... ON CONFLICT DO UPDATE, and what inserts, updates and deletions do to EXISTS.
use mathlib.Core.Path.{◌≡◌, refl}
use mathlib.Core.Logic.{◌⊎◌, inl, inr}
use mathlib.Core.Bool.{Bool, true, false}
use mathlib.Core.Option.{some}
use mathlib.Core.List.{List, [], ◌∷◌, ◌++◌}
use native.Mathlib.Omega.{arith}
use cloudrail.Common.Tests.{if◌then◌else◌, Bool-cases}
use cloudrail.Common.Table.{find, exists, update, delete}

module _ {ℓ} {A : Type ℓ} where
  -- INSERT y ON CONFLICT, which is a row under `p`, DO UPDATE SET f
  unfoldable pub upsert : (A → Bool) → (A → A) → A → List A → List A
  unfolding exists update
  upsert p f y xs = if exists p xs then update p f xs else xs ++ y ∷ []

  -- A row under `q` is one under `r` after the update.
  pub exists-update :
      (q r p : A → Bool) (f : A → A) (xs : List A)
      → ((x : A) → p x ≡ true → q x ≡ true → r (f x) ≡ true)
      → ((x : A) → p x ≡ false → q x ≡ true → r x ≡ true)
      → exists q xs ≡ true
      → exists r (update p f xs) ≡ true
  unfolding exists update
  exists-update q r p f [] k l h = cc
  exists-update q r p f (x ∷ xs) k l h = ground (arith, k x, l x, exists-update q r p f xs k l)

  -- An update that keeps the columns a query reads keeps its answer.
  pub exists-update-same :
      (q p : A → Bool) (f : A → A) (xs : List A)
      → ((x : A) → q (f x) ≡ q x)
      → exists q (update p f xs) ≡ exists q xs
  unfolding exists update
  exists-update-same q p f [] k = refl
  exists-update-same q p f (x ∷ xs) k = ground (arith, k x, exists-update-same q p f xs k)

  pub exists-append :
      (q : A → Bool) (xs : List A) (y : A) → exists q xs ≡ true → exists q (xs ++ y ∷ []) ≡ true
  unfolding exists
  exists-append q [] y h = cc
  exists-append q (x ∷ xs) y h = ground (arith, exists-append q xs y)

  pub exists-appended :
      (q : A → Bool) (xs : List A) (y : A) → q y ≡ true → exists q (xs ++ y ∷ []) ≡ true
  unfolding exists
  exists-appended q [] y h = ground arith
  exists-appended q (x ∷ xs) y h = ground (arith, exists-appended q xs y h)

  pub delete-append :
      (p : A → Bool) (xs : List A) (y : A)
      → exists p xs ≡ false
      → p y ≡ true
      → delete p (xs ++ y ∷ []) ≡ xs
  unfolding delete exists
  delete-append p [] y h k = rw k refl
  delete-append p (x ∷ xs) y h k = ground (arith, delete-append p xs y)

  pub find-after :
      (p : A → Bool) (xs : List A) (y : A)
      → exists p xs ≡ false
      → p y ≡ true
      → find p (xs ++ y ∷ []) ≡ some y
  unfolding find exists
  find-after p [] y h k = rw k refl
  find-after p (x ∷ xs) y h k = ground (arith, find-after p xs y)

  -- A row that a query asks for has been there, or it is the new one.
  exists-append-cases :
      (q : A → Bool) (xs : List A) (y : A)
      → exists q (xs ++ y ∷ []) ≡ true
      → (exists q xs ≡ true) ⊎ (q y ≡ true)
  unfolding exists
  exists-append-cases q [] y h = inr (ground arith)
  exists-append-cases q (x ∷ xs) y h = elim (Bool-cases (q x)) [
    | inl t ↦ inl (ground arith)
    | inr t ↦ elim (exists-append-cases q xs y (ground arith)) [
      | inl k ↦ inl (ground arith)
      | inr k ↦ inr k
    ]
  ]

  exists-update-cases {κ} :
      {Q : Type κ} (q p : A → Bool) (f : A → A) (xs : List A)
      → ((x : A) → p x ≡ true → q (f x) ≡ true → Q)
      → exists q (update p f xs) ≡ true
      → (exists q xs ≡ true) ⊎ Q
  unfolding exists update
  exists-update-cases q p f [] k h = absurd (cc)
  exists-update-cases q p f (x ∷ xs) k h = elim (Bool-cases (p x)) [
    | inl t ↦ elim (Bool-cases (q (f x))) [
      | inl u ↦ inr (k x t u)
      | inr u ↦ elim (exists-update-cases q p f xs k (ground arith)) [
        | inl l ↦ inl (ground arith)
        | inr l ↦ inr l
      ]
    ]
    | inr t ↦ elim (Bool-cases (q x)) [
      | inl u ↦ inl (ground arith)
      | inr u ↦ elim (exists-update-cases q p f xs k (ground arith)) [
        | inl l ↦ inl (ground arith)
        | inr l ↦ inr l
      ]
    ]
  ]

  pub exists-delete :
      (q p : A → Bool) (xs : List A)
      → ((x : A) → q x ≡ true → p x ≡ false)
      → exists q xs ≡ true
      → exists q (delete p xs) ≡ true
  unfolding exists delete
  exists-delete q p [] k h = cc
  exists-delete q p (x ∷ xs) k h = ground (arith, k x, exists-delete q p xs k)

  -- A deletion adds no row.
  pub exists-deleted :
      (q p : A → Bool) (xs : List A) → exists q (delete p xs) ≡ true → exists q xs ≡ true
  unfolding exists delete
  exists-deleted q p [] h = cc
  exists-deleted q p (x ∷ xs) h = ground (arith, exists-deleted q p xs)

  pub find-exists :
      (q : A → Bool) (xs : List A) → exists q xs ≡ true → (x : A) × (find q xs ≡ some x)
  unfolding exists find
  find-exists q [] h = absurd (cc)
  find-exists q (x ∷ xs) h = elim (Bool-cases (q x)) [
    | inl t ↦ (x, rw t refl)
    | inr t ↦ let (y, e) = find-exists q xs (ground arith) in (y, rw t e)
  ]

  pub exists-found :
      (p q : A → Bool) (xs : List A) {x : A} → find q xs ≡ some x → p x ≡ true → exists p xs ≡ true
  unfolding exists find
  exists-found p q [] h k = cc
  exists-found p q (y ∷ xs) {x = x} h k = elim (Bool-cases (q y)) [
    | inl t ↦ let e : y ≡ x = ground arith in rw (e, k) refl
    | inr t ↦ let l = exists-found p q xs {x = x} (ground arith) k in ground arith
  ]

module _ {ℓ} {A : Type ℓ} (p : A → Bool) (f : A → A) (y : A) where
  -- What a query asks for is there after an upsert that makes it or keeps it.
  pub exists-upsert :
      (q : A → Bool) (xs : List A)
      → ((x : A) → p x ≡ true → q x ≡ true → q (f x) ≡ true)
      → exists q xs ≡ true
      → exists q (upsert p f y xs) ≡ true
  unfolding upsert
  exists-upsert q xs k h = elim (Bool-cases (exists p xs)) [
    | inl t ↦ rw t (exists-update q q p f xs k (λ x _ u. u) h)
    | inr t ↦ rw t (exists-append q xs y h)
  ]

  pub exists-upserted :
      (q : A → Bool) (xs : List A)
      → ((x : A) → p x ≡ true → q (f x) ≡ true)
      → q y ≡ true
      → exists q (upsert p f y xs) ≡ true
  unfolding upsert
  exists-upserted q xs k h = elim (Bool-cases (exists p xs)) [
    | inl t ↦ rw t (exists-update p q p f xs (λ x u _. k x u) (λ x u v. absurd (cc (u, v))) t)
    | inr t ↦ rw t (exists-appended q xs y h)
  ]

  -- What is there after an upsert has been there, or the upsert made it.
  pub exists-upsert-cases {κ} :
      {Q : Type κ} (q : A → Bool) (xs : List A)
      → ((x : A) → p x ≡ true → q (f x) ≡ true → Q)
      → (q y ≡ true → Q)
      → exists q (upsert p f y xs) ≡ true
      → (exists q xs ≡ true) ⊎ Q
  unfolding upsert
  exists-upsert-cases q xs k l h = elim (Bool-cases (exists p xs)) [
    | inl t ↦ exists-update-cases q p f xs k (rw t at h)
    | inr t ↦ elim (exists-append-cases q xs y (rw t at h)) [ inl u ↦ inl u | inr u ↦ inr (l u) ]
  ]
