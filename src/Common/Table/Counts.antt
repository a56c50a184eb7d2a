-- ===== src/Common/Table/Counts.antt =====
-- What updates, upserts and deletions do to the count of a query.
use cloudrail.Common.{◌+◌}
use Prim.Native.Nat.{◌≤◌, ◌<◌}
use mathlib.Core.Path.{◌≡◌, refl}
use mathlib.Core.Logic.{inl, inr}
use mathlib.Core.Bool.{Bool, true, false}
use mathlib.Core.Option.{some}
use mathlib.Core.List.{List, [], ◌∷◌}
use native.Mathlib.Omega.{arith}
use cloudrail.Common.Tests.{if◌then◌else◌, Bool-cases}
use cloudrail.Common.Lists.{length}
use cloudrail.Common.Table.{count-append, find, count, exists, update, delete}
use cloudrail.Common.Table.Writes.{upsert}

module _ {ℓ} {A : Type ℓ} where
  pub count-le :
      (p q : A → Bool) (xs : List A) → ((x : A) → q x ≡ true → p x ≡ true) → count q xs ≤ count p xs
  unfolding count
  count-le p q [] k = omega arith
  count-le p q (x ∷ xs) k = ground (arith, k x, count-le p q xs k)

  pub count_le_length : (p : A → Bool) (xs : List A) → count p xs ≤ length xs
  unfolding count
  count_le_length p [] = omega arith
  count_le_length p (x ∷ xs) = ground (arith, count_le_length p xs)

  -- Fewer rows satisfy a stronger condition, where a row that is found tells the two apart.
  pub count-fewer :
      (p q r : A → Bool) (xs : List A) {x : A}
      → find r xs ≡ some x
      → p x ≡ true
      → q x ≡ false
      → ((y : A) → q y ≡ true → p y ≡ true)
      → count q xs < count p xs
  unfolding count find
  count-fewer p q r [] h a b k = absurd (cc)
  count-fewer p q r (y ∷ xs) {x = x} h a b k = elim (Bool-cases (r y)) [
    | inl t ↦
        let e : y ≡ x = ground arith in
        rw e (rw a (rw b (let l = count-le p q xs k in omega arith)))
    | inr t ↦ let l = count-fewer p q r xs {x = x} (ground arith) a b k in ground (arith, k y)
  ]

  -- An update that keeps the columns a query reads keeps its count.
  pub count-update-same :
      (q p : A → Bool) (f : A → A) (xs : List A)
      → ((x : A) → q (f x) ≡ q x)
      → count q (update p f xs) ≡ count q xs
  unfolding count update
  count-update-same q p f [] k = refl
  count-update-same q p f (x ∷ xs) k = ground (arith, k x, count-update-same q p f xs k)

  -- An update adds at most the rows that it changes.
  pub count-update-sum :
      (q p : A → Bool) (f : A → A) (xs : List A) → count q (update p f xs) ≤ count q xs + count p xs
  unfolding count update
  count-update-sum q p f [] = omega arith
  count-update-sum q p f (x ∷ xs) = ground (arith, count-update-sum q p f xs)

  pub count-delete-le : (q p : A → Bool) (xs : List A) → count q (delete p xs) ≤ count q xs
  unfolding count delete
  count-delete-le q p [] = omega arith
  count-delete-le q p (x ∷ xs) = ground (arith, count-delete-le q p xs)

  -- The count of a query after an upsert that keeps the columns which it reads.
  pub count-upsert-same :
      (q p : A → Bool) (f : A → A) (y : A) (xs : List A)
      → ((x : A) → q (f x) ≡ q x)
      → exists p xs ≡ true
      → count q (upsert p f y xs) ≡ count q xs
  unfolding upsert
  count-upsert-same q p f y xs k h = rw h (count-update-same q p f xs k)

  pub count-upsert-new :
      (q p : A → Bool) (f : A → A) (y : A) (xs : List A)
      → exists p xs ≡ false
      → count q (upsert p f y xs) ≡ count q xs + (if q y then 1 else 0)
  unfolding upsert
  count-upsert-new q p f y xs h = rw h (count-append q xs y)
