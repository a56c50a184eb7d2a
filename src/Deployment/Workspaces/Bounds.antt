-- ===== src/Deployment/Workspaces/Bounds.antt =====
-- How many variables a service has: the invariant, and the writes that keep it.
use cloudrail.Common.{
  ==_iff, All, All-map, Bool, Bool-cases, List, [], ap, ap₂, arith, false, inl, inr, leb, refl,
  subst, sym, true, ℕ, ◌++◌, ◌+◌, ◌==◌, ◌∙◌, ◌∷◌, ◌≡◌, ◌≤◌,
}
use cloudrail.Common.Table.{count, exists}
use cloudrail.Common.Table.Rows.{count-none}
use cloudrail.Common.Table.Counts.{count-upsert-new, count-upsert-same}
use cloudrail.Common.Table.Writes.{exists-upsert, upsert}
use cloudrail.Common.Text.{Text}
use cloudrail.Deployment.Variables.{
  Binding, Key, Variable, managed_suffixes, other_variable, variable_at,
}
use cloudrail.Deployment.Variables.Keys.{same_key_sound}

abbrev pub of_service_id : ℕ → Variable → Bool
of_service_id id v = v.service_id == id

-- The key of a variable is its own, a service has at most 64 variables, and the six variables of a
-- binding are there.
pub record IsBounded (vs : List Variable) (bs : List Binding) : Type 0 where
  pub unique : (id : ℕ) (name : Text) → count (variable_at id name) vs ≤ 1
  pub within : (id : ℕ) → count (of_service_id id) vs ≤ 64
  pub bound :
      All
        (λ b.
          All (λ s. exists (variable_at b.service_id (b.prefix ++ s)) vs ≡ true) managed_suffixes)
        bs

-- the variables of a binding are there
abbrev pub HasNames : List Variable → ℕ → Text → List Text → Type 0
HasNames vs id prefix suffixes = All (λ s. exists (variable_at id (prefix ++ s)) vs ≡ true) suffixes

pub HasNames-map :
    (vs ws : List Variable) (id : ℕ) (prefix : Text) (suffixes : List Text)
    → ((a : ℕ) (n : Text) → exists (variable_at a n) vs ≡ true → exists (variable_at a n) ws ≡ true)
    → HasNames vs id prefix suffixes
    → HasNames ws id prefix suffixes
HasNames-map vs ws id prefix suffixes k = All-map _ _ (λ s. k id (prefix ++ s)) suffixes

-- A variable of the service is the one of the name or another one.
count-split :
    (id : ℕ) (name : Text) (vs : List Variable)
    → count (of_service_id id) vs
      ≡ count (other_variable id name) vs + count (variable_at id name) vs
unfolding count
count-split id name [] = refl
count-split id name (v ∷ vs) = ground (arith, count-split id name vs)

-- an upsert of the variable of a name, which keeps the keys
module _ (id : ℕ) (name : Text) (f : Variable → Variable) (y : Variable)
    (keeps : (a : ℕ) (n : Text) (v : Variable) → variable_at a n (f v) ≡ variable_at a n v)
    (keeps_service : (a : ℕ) (v : Variable) → of_service_id a (f v) ≡ of_service_id a v)
    (service : y.service_id ≡ id) (own : y.name ≡ name) where
  pub upsert_unique :
      (vs : List Variable)
      → ((a : ℕ) (n : Text) → count (variable_at a n) vs ≤ 1)
      → (a : ℕ) (n : Text) → count (variable_at a n) (upsert (variable_at id name) f y vs) ≤ 1
  upsert_unique vs h a n = elim (Bool-cases (exists (variable_at id name) vs)) [
    | inl t ↦
        let e = count-upsert-same (variable_at a n) (variable_at id name) f y vs (keeps a n) t in
        let l = h a n in rw e l
    | inr t ↦
        let e = count-upsert-new (variable_at a n) (variable_at id name) f y vs t in
        let l = h a n in
        elim (Bool-cases (variable_at a n y)) [
          | inr u ↦ rw (e, u) (omega arith)
          | inl u ↦
              let (i, m) = same_key_sound y.service_id y.name a n u in
              let z : count (variable_at a n) vs ≡ 0 =
                subst (λ (k : Key). count (variable_at (k.0) (k.1)) vs ≡ 0)
                  (ap₂ (λ x s. (x, s)) (sym service ∙ i) (sym own ∙ m))
                  (count-none (variable_at id name) vs t) in
              rw (e, u) (omega arith)
        ]
  ]

  pub upsert-within :
      (vs : List Variable)
      → leb 64 (count (other_variable id name) vs) ≡ false
      → ((a : ℕ) → count (of_service_id a) vs ≤ 64)
      → (a : ℕ) → count (of_service_id a) (upsert (variable_at id name) f y vs) ≤ 64
  upsert-within vs room h a = elim (Bool-cases (exists (variable_at id name) vs)) [
    | inl t ↦
        let e =
          count-upsert-same (of_service_id a) (variable_at id name) f y vs (keeps_service a) t in
        let l = h a in rw e l
    | inr t ↦
        let e = count-upsert-new (of_service_id a) (variable_at id name) f y vs t in
        let l = h a in
        elim (Bool-cases (of_service_id a y)) [
          | inr u ↦ rw (e, u) (omega arith)
          | inl u ↦
              let i = sym service ∙ (==_iff y.service_id a).0 u in
              let z = count-none (variable_at id name) vs t in
              let c = count-split id name vs in
              let r : count (of_service_id id) vs ≤ 63 =
                few (count (other_variable id name) vs) (count (of_service_id id) vs) room
                  (c ∙ ap (λ k. count (other_variable id name) vs + k) z) in
              rw (e, u) (subst (λ k. count (of_service_id k) vs + 1 ≤ 64) i (omega arith))
        ]
  ]
    where
      few : (n m : ℕ) → leb 64 n ≡ false → m ≡ n + 0 → m ≤ 63
      few n m l e = ground arith

  pub upsert-names :
      (vs : List Variable) (a : ℕ) (n : Text)
      → exists (variable_at a n) vs ≡ true
      → exists (variable_at a n) (upsert (variable_at id name) f y vs) ≡ true
  upsert-names vs a n =
      exists-upsert (variable_at id name) f y (variable_at a n) vs (λ v _ h. keeps a n v ∙ h)
