-- ===== src/Common/Table/Rows.antt =====
-- Predicates on every row of a table, under updates that look at the rows which they change.
use cloudrail.Common.{refl, subst, Option-cases}
use cloudrail.Common.Table.{find, count, update, Option, first_by, exists, count-append}
use Prim.Native.Nat.{ℕ, ◌≤◌, ◌<◌, ◌+◌}
use mathlib.Core.Path.{◌≡◌}
use mathlib.Core.Logic.{inl, inr}
use mathlib.Core.Bool.{Bool, true, false, ◌&&◌}
use mathlib.Core.Option.{none, some}
use mathlib.Core.List.{List, [], ◌∷◌, ◌++◌}
use native.Mathlib.Omega.{arith}
use cloudrail.Common.Tests.{Bool-cases, Option-cases, ◌==◌, ==_iff, if◌then◌else◌}
use cloudrail.Common.Lists.{All, All-map}

module _ {ℓ κ μ} {A : Type ℓ} (P : A → Type κ) (Q : A → Type μ) where
  -- What an update makes of a predicate, from the rows that it changes and those that it leaves.
  pub All-update-to :
      (p : A → Bool) (f : A → A) (xs : List A)
      → ((x : A) → P x → p x ≡ true → Q (f x))
      → ((x : A) → P x → p x ≡ false → Q x)
      → All P xs
      → All Q (update p f xs)
  unfolding update
  All-update-to p f [] k l h = tt
  All-update-to p f (x ∷ xs) k l (a, h) = (
    elim (Bool-cases (p x)) [ inl t ↦ rw t (k x a t) | inr t ↦ rw t (l x a t) ],
    All-update-to p f xs k l h,
  )

  pub All-zip : (xs : List A) → All P xs → All Q xs → All (λ x. P x × Q x) xs
  All-zip [] h k = tt
  All-zip (x ∷ xs) (p, h) (q, k) = ((p, q), All-zip xs h k)

module _ {ℓ κ} {A : Type ℓ} (P : A → Type κ) where
  pub All-of : ((x : A) → P x) → (xs : List A) → All P xs
  All-of h [] = tt
  All-of h (x ∷ xs) = (h x, All-of h xs)

module _ {ℓ} {A : Type ℓ} where
  -- An update under which no row begins to satisfy `q` raises no count of `q`.
  pub count-update-le :
      (q p : A → Bool) (f : A → A) (xs : List A)
      → All (λ x. p x ≡ true → q (f x) ≡ true → q x ≡ true) xs
      → count q (update p f xs) ≤ count q xs
  unfolding count update
  count-update-le q p f [] h = omega arith
  count-update-le q p f (x ∷ xs) (a, h) = ground (arith, a, count-update-le q p f xs h)

  none_of_count : (p : A → Bool) (xs : List A) → count p xs ≤ 0 → All (λ x. p x ≡ false) xs
  unfolding count
  none_of_count p [] h = tt
  none_of_count p (x ∷ xs) h = (ground arith, none_of_count p xs (ground arith))

  excluded :
      (p : A → Bool) (xs : List A) (x : A)
      → All (λ y. p y ≡ false) xs
      → All (λ y. p y ≡ true → y ≡ x) xs
  excluded p [] x h = tt
  excluded p (y ∷ ys) x (a, h) = ((λ u. absurd (cc (u, a))), excluded p ys x h)

  -- Where at most one row satisfies `p`, each that does is the one that a query finds.
  pub only_row :
      (p : A → Bool) (xs : List A) (x : A)
      → count p xs ≤ 1
      → find p xs ≡ some x
      → All (λ y. p y ≡ true → y ≡ x) xs
  unfolding count find
  only_row p [] x c e = tt
  only_row p (y ∷ ys) x c e = elim (Bool-cases (p y)) [
    | inl t ↦ (λ _. ground arith, excluded p ys x (none_of_count p ys (ground arith)))
    | inr t ↦ ((λ u. absurd (cc (u, t))), only_row p ys x (ground arith) (rw t at e))
  ]

  missing :
      (p : A → Bool) (xs : List A) (o : Option A)
      → All (λ y. p y ≡ false) xs
      → All (λ y. p y ≡ true → o ≡ some y) xs
  missing p [] o h = tt
  missing p (y ∷ ys) o (a, h) = ((λ u. absurd (cc (u, a))), missing p ys o h)

  -- Where at most one row satisfies `p`, a query finds each that does.
  pub found_row :
      (p : A → Bool) (xs : List A) → count p xs ≤ 1 → All (λ y. p y ≡ true → find p xs ≡ some y) xs
  unfolding count find
  found_row p [] c = tt
  found_row p (y ∷ ys) c = elim (Bool-cases (p y)) [
    | inl t ↦ ((λ _. rw t refl), missing p ys (find p (y ∷ ys)) (none_of_count p ys (ground arith)))
    | inr t ↦ (
      (λ u. absurd (cc (u, t))),
      subst (λ o. All (λ z. p z ≡ true → o ≡ some z) ys) (rw t refl)
          (found_row p ys (ground arith)),
    )
  ]

module _ {ℓ κ} {A : Type ℓ} (P : A → Type κ) where
  -- What holds of every row holds of the first in an order; so does the query's condition.
  pub All-first_by :
      (before : A → A → Bool) (p : A → Bool) (xs : List A) {x : A}
      → All P xs
      → first_by before p xs ≡ some x
      → P x × (p x ≡ true)
  unfolding first_by
  All-first_by before p [] h e = absurd (cc)
  All-first_by before p (y ∷ ys) {x = x} (a, h) e = elim (Bool-cases (p y)) [
    | inl t ↦ elim (Option-cases (first_by before p ys)) [
      | inl n ↦ at_head (ground arith) a t
      | inr (z, s) ↦
          let r = All-first_by before p ys {x = z} h s in
          elim (Bool-cases (before z y)) [
            | inl b ↦ at_rest (ground arith) r
            | inr b ↦ at_head (ground arith) a t
          ]
    ]
    | inr t ↦ All-first_by before p ys {x = x} h (ground arith)
  ]
    where
      at_head : y ≡ x → P y → p y ≡ true → P x × (p x ≡ true)
      at_head e a t = subst (λ z. P z × (p z ≡ true)) e (a, t)

      at_rest : {z : A} → z ≡ x → P z × (p z ≡ true) → P x × (p x ≡ true)
      at_rest e r = subst (λ z. P z × (p z ≡ true)) e r

module _ {ℓ} {A : Type ℓ} (before : A → A → Bool) (p : A → Bool) where
  first_by-none : (xs : List A) → first_by before p xs ≡ none → All (λ y. p y ≡ false) xs
  unfolding first_by
  first_by-none [] h = tt
  first_by-none (y ∷ ys) h = elim (Bool-cases (p y)) [
    | inl t ↦ absurd (cc (rw t at h))
    | inr t ↦ (t, first_by-none ys (rw t at h))
  ]

  -- The row that ORDER BY puts first: none that the query finds comes before it.
  pub first_by-least :
      ((x y : A) → before x y ≡ true → before y x ≡ false)
      → ((x y z : A) → before x y ≡ false → before y z ≡ false → before x z ≡ false)
      → (xs : List A) {x : A} → first_by before p xs ≡ some x
      → All (λ y. p y ≡ true → before y x ≡ false) xs
  unfolding first_by
  first_by-least asym chain [] e = tt
  first_by-least asym chain (y ∷ ys) {x = x} e = elim (Bool-cases (p y)) [
    | inl t ↦ elim (Option-cases (first_by before p ys)) [
      | inl n ↦
          there (ground arith) (λ _. alone)
            (All-map (λ e. p e ≡ false) (λ e. p e ≡ true → before e y ≡ false)
              (λ e k l. absurd (cc (k, l))) ys (first_by-none ys n))
      | inr (z, s) ↦
          let least = first_by-least asym chain ys s in
          elim (Bool-cases (before z y)) [
            | inl b ↦ there (ground arith) (λ _. asym z y b) least
            | inr b ↦
                there (ground arith) (λ _. alone)
                  (All-map (λ e. p e ≡ true → before e z ≡ false)
                    (λ e. p e ≡ true → before e y ≡ false) (λ e k l. chain e z y (k l) b) ys least)
          ]
    ]
    | inr t ↦ ((λ l. absurd (cc (t, l))), first_by-least asym chain ys (ground arith))
  ]
    where
      there :
          {z : A}
          → z ≡ x
          → (p y ≡ true → before y z ≡ false)
          → All (λ e. p e ≡ true → before e z ≡ false) ys
          → (p y ≡ true → before y x ≡ false) × All (λ e. p e ≡ true → before e x ≡ false) ys
      there same h k =
          subst
            (λ z. (p y ≡ true → before y z ≡ false) × All (λ e. p e ≡ true → before e z ≡ false) ys)
            same (h, k)

      alone : before y y ≡ false
      alone = elim (Bool-cases (before y y)) [ inl b ↦ asym y y b | inr b ↦ b ]

module _ {ℓ} {A : Type ℓ} where
  pub count-none : (p : A → Bool) (xs : List A) → exists p xs ≡ false → count p xs ≡ 0
  unfolding count exists
  count-none p [] h = refl
  count-none p (x ∷ xs) h = ground (arith, count-none p xs)

  -- A new row with a key of its own keeps the keys apart.
  pub append_unique :
      (key : A → ℕ) (xs : List A) (y : A)
      → count (λ x. key x == key y) xs ≡ 0
      → (k : ℕ) → count (λ x. key x == k) xs ≤ 1
      → count (λ x. key x == k) (xs ++ y ∷ []) ≤ 1
  append_unique key xs y z k h = elim (Bool-cases (key y == k)) [
    | inl t ↦
        let e = subst (λ i. count (λ x. key x == i) xs ≡ 0) ((==_iff (key y) k).0 t) z in
        rw (count-append (λ x. key x == k) xs y) (rw t (omega arith))
    | inr t ↦ rw (count-append (λ x. key x == k) xs y) (rw t (omega arith))
  ]

  -- A new row, where its key has room for one more, exceeds no bound.
  pub append-bounded :
      (key : A → ℕ) (q : A → Bool) (n : ℕ) (xs : List A) (y : A)
      → count (λ x. key x == key y && q x) xs < n
      → (k : ℕ) → count (λ x. key x == k && q x) xs ≤ n
      → count (λ x. key x == k && q x) (xs ++ y ∷ []) ≤ n
  append-bounded key q n xs y room k h = elim (Bool-cases (key y == k)) [
    | inl t ↦
        let e = subst (λ i. count (λ x. key x == i && q x) xs < n) ((==_iff (key y) k).0 t) room in
        rw (count-append (λ x. key x == k && q x) xs y) (at_most_one (key y == k && q y) e)
    | inr t ↦ rw (count-append (λ x. key x == k && q x) xs y) (rw t (omega arith))
  ]
    where
      at_most_one : {m : ℕ} (b : Bool) → m < n → m + (if b then 1 else 0) ≤ n
      at_most_one true l = omega arith
      at_most_one false l = omega arith
