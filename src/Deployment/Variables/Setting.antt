-- ===== src/Deployment/Variables/Setting.antt =====
-- SetVariableTyped, SetReference and DeleteVariable keep a workspace whole; what is set is read.
use cloudrail.Common.{
  All, All-append, All-map, Bool-cases, List, false, inl, inr, leb, length, ltb, not, of_some_eq,
  or_right, some, subst, sym, ℕ, ◌||◌, ◌∙◌, ◌≡◌,
}
use cloudrail.Common.Table.{count, delete, exists, exists-false}
use cloudrail.Common.Table.Rows.{All-update-to, All-zip}
use cloudrail.Common.Table.Found.{All-delete-to}
use cloudrail.Common.Table.Writes.{upsert}
use cloudrail.Common.Text.{Text}
use cloudrail.Deployment.Outside.{Outside}
use cloudrail.Deployment.Variables.{
  Reference, Variable, VariableKind, Workspace, bucket_managed, check_own, delete_variable,
  is_reference, other_variable, put_variable, reference_at, reference_to, set_variable, stored,
  valid_variable_name, variable_at, variable_scope,
}
use cloudrail.Deployment.Variables.Resolving.{IsReadable, IsWhole}
use cloudrail.Deployment.Variables.Wholeness.{
  HasRow, delete-IsAcyclic, delete-aimed, kept_elsewhere, put_variable-IsReadable,
  put_variable-aimed,
}
use cloudrail.Result.{
  >>=-eq-ok, bucket_variable, invalid_variable, no_cipher, ok, ok-injective, or_else, or_else-eq-ok,
  refuse, refuse-eq-ok, then-eq-ok, too_many_variables, variable_referenced,
}
use cloudrail.Secrets.{Aead, seal}

-- a kind that is not `reference` needs no row
put_variable-kept :
    (id : ℕ) (name sealed : Text) (kind : VariableKind) (vs : List Variable) (rs : List Reference)
    → is_reference kind ≡ false
    → All (HasRow rs) vs
    → All (HasRow (delete (reference_at id name) rs)) (put_variable id name sealed kind vs)
unfolding put_variable upsert
put_variable-kept id name sealed kind vs rs k h =
    elim (Bool-cases (exists (variable_at id name) vs)) [
      | inl t ↦ rw t (
          All-update-to (HasRow rs) _ (variable_at id name) (stored sealed kind) vs
            (λ v _ _ u. absurd (cc (u, k))) apart h)
      | inr t ↦ rw t (
          All-append _ vs _
            (All-map _ _ (λ v (l, e). apart v l e) vs
              (All-zip _ _ vs h (exists-false (variable_at id name) vs t)))
            (λ u. absurd (cc (u, k)), tt))
    ]
  where
    apart :
        (v : Variable)
        → HasRow rs v
        → variable_at id name v ≡ false
        → HasRow (delete (reference_at id name) rs) v
    apart v l e u = kept_elsewhere id name v.service_id v.name rs e (l u)

-- What SetVariableTyped has checked where it succeeds, and what it has written.
pub record IsAssigned (o : Outside) (nonce : Text) (id : ℕ) (name value : Text)
    (kind : VariableKind) (w q : Workspace) : Type 0 where
  pub cipher : Aead
  pub configured : o.cipher ≡ some cipher
  pub own_kind : is_reference kind ≡ false
  pub room : leb 64 (count (other_variable id name) w.variables) ≡ false
  pub written : q ≡ record w {
    variables =
        put_variable id name (seal cipher nonce value (variable_scope id name)) kind w.variables;
    references = delete (reference_at id name) w.references;
  }

pub set_variable-IsAssigned :
    (o : Outside) (nonce : Text) (id : ℕ) (name value : Text) (kind : VariableKind) (w : Workspace)
    {q : Workspace}
    → set_variable o nonce id name value kind w ≡ ok q
    → IsAssigned o nonce id name value kind w q
unfolding set_variable
set_variable-IsAssigned o nonce id name value kind w h =
    let (_, h1) = then-eq-ok (check_own id w) _ h in
    let (valid, h2) =
      then-eq-ok
        (refuse (not (valid_variable_name name) || ltb 8192 (length value) || is_reference kind)
          invalid_variable)
        _ h1 in
    let (_, h3) = then-eq-ok (refuse (bucket_managed id name w) bucket_variable) _ h2 in
    let (c, given, h4) = >>=-eq-ok (or_else o.cipher no_cipher) _ h3 in
    let (room, h5) =
      then-eq-ok (refuse (leb 64 (count (other_variable id name) w.variables)) too_many_variables) _
        h4 in
    record {
      cipher = c;
      configured = or_else-eq-ok _ _ given;
      own_kind =
          or_right (not (valid_variable_name name) || ltb 8192 (length value)) (is_reference kind)
            (refuse-eq-ok _ _ valid);
      room = refuse-eq-ok _ _ room;
      written = sym (ok-injective h5);
    }

module _ (o : Outside) (c : Aead) (configured : o.cipher ≡ some c)
    (inverse : (n v s : Text) → c.decrypt n (c.encrypt n v s) s ≡ some v) (nonce : Text)
    (size : length nonce ≡ c.nonce_size) where
  pub set_variable-IsWhole :
      (id : ℕ) (name value : Text) (kind : VariableKind) (w : Workspace) {q : Workspace}
      → set_variable o nonce id name value kind w ≡ ok q
      → IsWhole c w
      → IsWhole c q
  set_variable-IsWhole id name value kind w h whole =
      let s = set_variable-IsAssigned o nonce id name value kind w h in
      let same = of_some_eq (sym s.configured ∙ configured) in
      let sealed = seal s.cipher nonce value (variable_scope id name) in
      subst (IsWhole c) (sym s.written) (record {
        acyclic = delete-IsAcyclic (reference_at id name) w.references whole.acyclic;
        aimed =
            All-delete-to _ _ (reference_at id name) w.references (λ r k _. k)
              (put_variable-aimed id name sealed kind w.variables w.references whole.aimed);
        kept = put_variable-kept id name sealed kind w.variables w.references s.own_kind whole.kept;
        sealed =
            subst
              (λ d. All (IsReadable c) (
                put_variable id name (seal d nonce value (variable_scope id name)) kind
                  w.variables))
              (sym same)
              (put_variable-IsReadable c inverse nonce id name value kind w.variables size
                whole.sealed);
      })

pub delete_variable-IsWhole :
    (c : Aead) (id : ℕ) (name : Text) (w : Workspace) {q : Workspace}
    → delete_variable id name w ≡ ok q
    → IsWhole c w
    → IsWhole c q
unfolding delete_variable
delete_variable-IsWhole c id name w h whole =
    let (_, h1) = then-eq-ok (refuse (bucket_managed id name w) bucket_variable) _ h in
    let (free, h2) =
      then-eq-ok (refuse (exists (reference_to id name) w.references) variable_referenced) _ h1 in
    subst (IsWhole c) (ok-injective h2) (record {
      acyclic = delete-IsAcyclic (reference_at id name) w.references whole.acyclic;
      aimed =
          All-delete-to _ _ (reference_at id name) w.references (λ r k _. k)
            (delete-aimed id name w.variables w.references (refuse-eq-ok _ _ free) whole.aimed);
      kept =
          All-delete-to _ _ (variable_at id name) w.variables
            (λ v k e u. kept_elsewhere id name v.service_id v.name w.references e (k u)) whole.kept;
      sealed = All-delete-to _ _ (variable_at id name) w.variables (λ v k _. k) whole.sealed;
    })
