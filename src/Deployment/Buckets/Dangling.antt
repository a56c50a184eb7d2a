-- ===== src/Deployment/Buckets/Dangling.antt =====
-- What UnbindBucket does to a variable that refers to one of those which it deletes.
use cloudrail.Common.{
  ==-apart, ==_refl, any, ap₂, ◌&&◌, [], ap, false, refl, some, suc, sym, true, ℕ, ◌++◌, ◌==◌, ◌∙◌,
  ◌∷◌, ◌≡◌,
}
use cloudrail.Common.Table.{delete, find}
use cloudrail.Common.Table.Found.{find-delete, find-deleted}
use cloudrail.Common.Text.{Text, equals}
use cloudrail.Deployment.Buckets.{binding_of, bound_name, unbind_bucket}
use cloudrail.Deployment.Variables.{managed_suffixes}
use cloudrail.Deployment.Outside.{Outside}
use cloudrail.Deployment.Variables.{
  Binding, Reference, Variable, Workspace, is_reference, reference_at, resolve_variable,
  variable_at, variable_scope, visited,
}
use cloudrail.Deployment.Variables.Keys.{same_key_sound}
use cloudrail.Deployment.Variables.Reading.{read_dangling, read_missing}
use cloudrail.Result.{>>=-ok, err, no_rows, ok, ok-injective, or_else}
use cloudrail.Secrets.{Aead, open_sealed}

-- A reference of another service to any of the six variables of a bucket's binding, without a
-- fallback as SetReference makes it, is read with the error of a missing row after UnbindBucket.
pub unbind_bucket-dangling :
    (o : Outside) (c : Aead) (fuel id service : ℕ) (w : Workspace) (b : Binding) (source : ℕ)
    (name : Text) (v : Variable) (r : Reference) {q : Workspace}
    → o.cipher ≡ some c
    → unbind_bucket id service w ≡ ok q
    → find (binding_of id service) w.bindings ≡ some b
    → find (variable_at source name) w.variables ≡ some v
    → is_reference v.kind ≡ true
    → open_sealed c v.ciphertext (variable_scope source name) ≡ ok []
    → find (reference_at source name) w.references ≡ some r
    → r.target ≡ service
    → any (λ suffix. equals r.target_variable (b.prefix ++ suffix)) managed_suffixes ≡ true
    → ¬ (source ≡ service)
    → resolve_variable o q (suc (suc fuel)) [] source name ≡ err no_rows
unfolding unbind_bucket
unbind_bucket-dangling o c fuel id service w b source name v r {q = q} configured h bound_row row
      kind opened refers to at apart =
    let written : q ≡ record w {
      bindings = delete (binding_of id service) w.bindings;
      variables = delete (bound_name service b.prefix) w.variables;
    } =
      sym (ok-injective (sym (>>=-ok _ _ (ap (λ x. or_else x no_rows) bound_row)) ∙ h)) in
    let kept =
      ap (λ x. find (variable_at source name) x.variables) written
      ∙ (find-delete (variable_at source name) (bound_name service b.prefix) w.variables elsewhere
          ∙ row) in
    let gone =
      ap (λ x. find (variable_at r.target r.target_variable) x.variables) written
      ∙ find-deleted (variable_at r.target r.target_variable) (bound_name service b.prefix)
          w.variables (bound_here service to at) in
    let away : visited r.target r.target_variable ((source, name) ∷ []) ≡ false =
      at_once to apart in
    read_dangling o c q (suc fuel) [] source name v r configured refl kept kind opened
      (ap (λ x. find (reference_at source name) x.references) written ∙ refers)
      (read_missing o q fuel ((source, name) ∷ []) r.target r.target_variable away gone)
  where
    elsewhere :
        (x : Variable) → variable_at source name x ≡ true → bound_name service b.prefix x ≡ false
    elsewhere x e =
        let (i, _) = same_key_sound x.service_id x.name source name e in
        let e : (x.service_id == service) ≡ false = rw i (==-apart apart) in rw e refl

    at_once :
        r.target ≡ service
        → ¬ (source ≡ service)
        → visited r.target r.target_variable ((source, name) ∷ []) ≡ false
    at_once t k = rw (t, ==-apart k) refl

    bound_here :
        (s : ℕ)
        → r.target ≡ s
        → any (λ suffix. equals r.target_variable (b.prefix ++ suffix)) managed_suffixes ≡ true
        → (x : Variable) → variable_at r.target r.target_variable x ≡ true
        → bound_name s b.prefix x ≡ true
    bound_here s t n x e =
        let (i, m) = same_key_sound x.service_id x.name r.target r.target_variable e in
        ap₂ (λ k y. k == s && any (λ suffix. equals y (b.prefix ++ suffix)) managed_suffixes)
          (i ∙ t) m
        ∙ rw (==_refl s) n
