-- ===== src/Deployment/Workspaces/Limits.antt =====
-- What setting variables and binding a bucket add to the variables of a service.
use cloudrail.Common.{
  All, All-map, Bool, Bool-cases, List, [], arith, false, if◌then◌else◌, inl, inr, leb, length,
  refl, suc, true, ℕ, ◌+◌, ◌==◌, ◌∙◌, ◌∷◌, ◌≡◌, ◌≤◌, ◌⊎◌,
}
use cloudrail.Common.Table.{count, exists}
use cloudrail.Common.Table.Counts.{count-upsert-new, count-upsert-same}
use cloudrail.Common.Table.Writes.{exists-upsert, exists-upserted, upsert}
use cloudrail.Common.Text.{Text}
use cloudrail.Deployment.Buckets.{Credentials, bind_entries, bucket_variables, put_bound, resealed}
use cloudrail.Deployment.Outside.{Env}
use cloudrail.Deployment.Variables.{
  Binding, Bucket, Variable, VariableKind, managed_suffixes, other_variable, put_variable, stored,
  variable_at, variable_scope,
}
use cloudrail.Deployment.Variables.Keys.{same_key_refl}
use cloudrail.Deployment.Workspaces.Bounds.{
  HasNames, HasNames-map, IsBounded, of_service_id, upsert-names, upsert_unique, upsert-within,
}
use cloudrail.Secrets.{Aead, seal}

pub put_variable-IsBounded :
    (id : ℕ) (name sealed : Text) (kind : VariableKind) (vs : List Variable) (bs : List Binding)
    → leb 64 (count (other_variable id name) vs) ≡ false
    → IsBounded vs bs
    → IsBounded (put_variable id name sealed kind vs) bs
unfolding put_variable
put_variable-IsBounded id name sealed kind vs bs room h =
    let y : Variable = record { service_id = id; name = name; ciphertext = sealed; kind = kind } in
    record {
      unique =
          upsert_unique id name (stored sealed kind) y (λ a n v. refl) (λ a v. refl) refl refl vs
            h.unique;
      within =
          upsert-within id name (stored sealed kind) y (λ a n v. refl) (λ a v. refl) refl refl vs
            room h.within;
      bound =
          All-map _ _
            (λ b. HasNames-map vs _ b.service_id b.prefix managed_suffixes (
              upsert-names id name (stored sealed kind) y (λ a n v. refl) (λ a v. refl) refl refl
                vs))
            bs h.bound;
    }

-- Binding again writes no new rows.
pub bind_entries-same :
    (c : Aead) (draw : ℕ → Text) (n id : ℕ) (entries : Env) (q : Variable → Bool)
    (vs : List Variable)
    → ((t : Text) (v : Variable) → q (resealed t v) ≡ q v)
    → All (λ e. exists (variable_at id (e.0)) vs ≡ true) entries
    → count q (bind_entries c draw n id entries vs) ≡ count q vs
unfolding bind_entries put_bound
bind_entries-same c draw n id [] q vs k h = refl
bind_entries-same c draw n id (e ∷ rest) q vs k (t, h) =
    let text = seal c (draw n) (e.1) (variable_scope id (e.0)) in
    bind_entries-same c draw (suc n) id rest q _ k (
      All-map _ _
        (λ x.
          exists-upsert (variable_at id (e.0)) (resealed text) _ (variable_at id (x.0)) vs
            (λ v _ u. u))
        rest h)
    ∙ count-upsert-same q (variable_at id (e.0)) (resealed text) _ vs (k text) t

pub bind_entries_unique :
    (c : Aead) (draw : ℕ → Text) (n id : ℕ) (entries : Env) (vs : List Variable)
    → ((a : ℕ) (m : Text) → count (variable_at a m) vs ≤ 1)
    → (a : ℕ) (m : Text) → count (variable_at a m) (bind_entries c draw n id entries vs) ≤ 1
unfolding bind_entries put_bound
bind_entries_unique c draw n id [] vs h = h
bind_entries_unique c draw n id (e ∷ rest) vs h = bind_entries_unique c draw (suc n) id rest _ (
    upsert_unique id (e.0) (resealed (seal c (draw n) (e.1) (variable_scope id (e.0)))) _
      (λ a m v. refl) (λ a v. refl) refl refl vs h)

-- Each entry adds one row at most, of its service.
pub bind_entries-count :
    (c : Aead) (draw : ℕ → Text) (n id : ℕ) (entries : Env) (vs : List Variable) (a : ℕ)
    → count (of_service_id a) (bind_entries c draw n id entries vs)
      ≤ count (of_service_id a) vs + (if id == a then length entries else 0)
unfolding bind_entries put_bound
bind_entries-count c draw n id [] vs a = ground arith
bind_entries-count c draw n id (e ∷ rest) vs a =
    let text = seal c (draw n) (e.1) (variable_scope id (e.0)) in
    let y : Variable = record {
      service_id = id;
      name = e.0;
      ciphertext = text;
      kind = VariableKind.secret;
    } in
    let l =
      bind_entries-count c draw (suc n) id rest (upsert (variable_at id (e.0)) (resealed text) y vs)
        a in
    elim (Bool-cases (exists (variable_at id (e.0)) vs)) [
      | inl t ↦ by_one (id == a) l (
          inl (
            count-upsert-same (of_service_id a) (variable_at id (e.0)) (resealed text) y vs
              (λ v. refl) t))
      | inr t ↦
          by_one (id == a) l
            (inr (count-upsert-new (of_service_id a) (variable_at id (e.0)) (resealed text) y vs t))
    ]
  where
    by_one :
        {x m k : ℕ} (b : Bool)
        → x ≤ m + (if b then length rest else 0)
        → (m ≡ k) ⊎ (m ≡ k + (if b then 1 else 0))
        → x ≤ k + (if b then suc (length rest) else 0)
    by_one true l (inl s) = omega arith
    by_one true l (inr s) = omega arith
    by_one false l (inl s) = omega arith
    by_one false l (inr s) = omega arith

pub bind_entries-kept :
    (c : Aead) (draw : ℕ → Text) (n id : ℕ) (entries : Env) (vs : List Variable) (a : ℕ) (m : Text)
    → exists (variable_at a m) vs ≡ true
    → exists (variable_at a m) (bind_entries c draw n id entries vs) ≡ true
unfolding bind_entries put_bound
bind_entries-kept c draw n id [] vs a m h = h
bind_entries-kept c draw n id (e ∷ rest) vs a m h = bind_entries-kept c draw (suc n) id rest _ a m (
    exists-upsert (variable_at id (e.0))
      (resealed (seal c (draw n) (e.1) (variable_scope id (e.0)))) _ (variable_at a m) vs
      (λ v _ u. u) h)

pub bind_entries-there :
    (c : Aead) (draw : ℕ → Text) (n id : ℕ) (entries : Env) (vs : List Variable)
    → All (λ e. exists (variable_at id (e.0)) (bind_entries c draw n id entries vs) ≡ true) entries
unfolding bind_entries put_bound
bind_entries-there c draw n id [] vs = tt
bind_entries-there c draw n id (e ∷ rest) vs =
    let text = seal c (draw n) (e.1) (variable_scope id (e.0)) in
    (
      bind_entries-kept c draw (suc n) id rest _ id (e.0) (
          exists-upserted (variable_at id (e.0)) (resealed text) _ (variable_at id (e.0)) vs
            (λ v u. u) (same_key_refl id (e.0))),
      bind_entries-there c draw (suc n) id rest _,
    )

-- The entries of a binding have the names of its prefix.
pub to_names :
    (id : ℕ) (prefix : Text) (b : Bucket) (k : Credentials) (vs : List Variable)
    → All (λ e. exists (variable_at id (e.0)) vs ≡ true) (bucket_variables prefix b k)
    → HasNames vs id prefix managed_suffixes
unfolding bucket_variables
to_names id prefix b k vs h = h

pub of_names :
    (id : ℕ) (prefix : Text) (b : Bucket) (k : Credentials) (vs : List Variable)
    → HasNames vs id prefix managed_suffixes
    → All (λ e. exists (variable_at id (e.0)) vs ≡ true) (bucket_variables prefix b k)
unfolding bucket_variables
of_names id prefix b k vs h = h
