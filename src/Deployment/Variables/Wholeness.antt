-- ===== src/Deployment/Variables/Wholeness.antt =====
-- Each operation on variables keeps a workspace whole.
use cloudrail.Common.{All, All-map, Bool, List, false, length, some, true, ℕ, ◌≡◌}
use cloudrail.Common.Table.{delete, exists, exists-false}
use cloudrail.Common.Table.Rows.{All-zip}
use cloudrail.Common.Table.Found.{All-upsert}
use cloudrail.Common.Table.Writes.{exists-delete, exists-deleted, exists-upsert}
use cloudrail.Common.Text.{Text}
use cloudrail.Deployment.Variables.{
  Reference, Variable, VariableKind, is_reference, put_variable, reference_at, reference_to,
  same_key, stored, variable_at, variable_scope,
}
use cloudrail.Deployment.Variables.Cycles.{IsAcyclic, Reaches-map, links}
use cloudrail.Deployment.Variables.Keys.{keys_apart, same_key_sound}
use cloudrail.Deployment.Variables.Resolving.{IsReadable}
use cloudrail.Secrets.{Aead, seal}
use cloudrail.Secrets.RoundTrip.{open-seal}

module _ (c : Aead) (inverse : (n v s : Text) → c.decrypt n (c.encrypt n v s) s ≡ some v) where
  sealed_row :
      (nonce : Text) (id : ℕ) (name value : Text) (kind : VariableKind)
      → length nonce ≡ c.nonce_size
      → IsReadable c (record {
        service_id = id;
        name = name;
        ciphertext = seal c nonce value (variable_scope id name);
        kind = kind;
      })
  sealed_row nonce id name value kind size =
      (value, open-seal c nonce value (variable_scope id name) size inverse)

  -- The upsert of a variable that is sealed for its own row.
  pub put_variable-IsReadable :
      (nonce : Text) (id : ℕ) (name value : Text) (kind : VariableKind) (vs : List Variable)
      → length nonce ≡ c.nonce_size
      → All (IsReadable c) vs
      → All
          (IsReadable c)
          (put_variable id name (seal c nonce value (variable_scope id name)) kind vs)
  unfolding put_variable
  put_variable-IsReadable nonce id name value kind vs size =
      All-upsert (IsReadable c) (variable_at id name) _ _ vs
        (λ v _ e.
          let (i, n) = same_key_sound v.service_id v.name id name e in
          (value, rw (i, n) (open-seal c nonce value (variable_scope id name) size inverse)))
        (sealed_row nonce id name value kind size)

-- A variable that exists is there after an upsert.
pub put_variable-exists :
    (a : ℕ) (n : Text) (id : ℕ) (name sealed : Text) (kind : VariableKind) (vs : List Variable)
    → exists (variable_at a n) vs ≡ true
    → exists (variable_at a n) (put_variable id name sealed kind vs) ≡ true
unfolding put_variable
put_variable-exists a n id name sealed kind vs =
    exists-upsert (variable_at id name) (stored sealed kind) _ (variable_at a n) vs (λ v _ h. h)

pub put_variable-aimed :
    (id : ℕ) (name sealed : Text) (kind : VariableKind) (vs : List Variable) (rs : List Reference)
    → All (λ r. exists (variable_at r.target r.target_variable) vs ≡ true) rs
    → All
        (λ r.
          exists (variable_at r.target r.target_variable) (put_variable id name sealed kind vs)
          ≡ true)
        rs
put_variable-aimed id name sealed kind vs rs =
    All-map _ _ (λ r. put_variable-exists r.target r.target_variable id name sealed kind vs) rs

-- a variable of the kind `reference` has its row
abbrev pub HasRow : List Reference → Variable → Type 0
HasRow rs v = is_reference v.kind ≡ true → exists (reference_at v.service_id v.name) rs ≡ true

module _ (id : ℕ) (name : Text) where
  -- A reference of another variable is there after the deletion of this one's.
  pub kept_elsewhere :
      (a : ℕ) (n : Text) (rs : List Reference)
      → same_key a n id name ≡ false
      → exists (reference_at a n) rs ≡ true
      → exists (reference_at a n) (delete (reference_at id name) rs) ≡ true
  kept_elsewhere a n rs apart =
      exists-delete (reference_at a n) (reference_at id name) rs
        (λ r. keys_apart r.source r.variable_name a n id name apart)

  pub delete-aimed :
      (vs : List Variable) (rs : List Reference)
      → exists (reference_to id name) rs ≡ false
      → All (λ r. exists (variable_at r.target r.target_variable) vs ≡ true) rs
      → All
          (λ r.
            exists (variable_at r.target r.target_variable) (delete (variable_at id name) vs)
            ≡ true)
          rs
  delete-aimed vs rs free aimed =
      All-map _ _
        (λ r (h, f).
          exists-delete (variable_at r.target r.target_variable) (variable_at id name) vs
            (λ v. keys_apart v.service_id v.name r.target r.target_variable id name f) h)
        rs (All-zip _ _ rs aimed (exists-false (reference_to id name) rs free))

pub delete-IsAcyclic :
    (p : Reference → Bool) (rs : List Reference) → IsAcyclic rs → IsAcyclic (delete p rs)
delete-IsAcyclic p rs h a k = h a (Reaches-map (λ x y. exists-deleted (links x y) p rs) k)
