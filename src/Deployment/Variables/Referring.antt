-- ===== src/Deployment/Variables/Referring.antt =====
-- SetReference keeps a workspace whole: the new reference has a target and closes no cycle.
use cloudrail.Common.{
  ==_iff, All, All-map, List, [], and_left, and_right, any, false, leb, length, not, of_some_eq,
  or_right, some, subst, sym, true, ℕ, ◌==◌, ◌||◌, ◌∙◌, ◌≡◌, ◌⊎◌,
}
use cloudrail.Common.Table.{count, exists}
use cloudrail.Common.Table.Found.{All-upsert}
use cloudrail.Common.Table.Writes.{exists-upsert, exists-upsert-cases, exists-upserted}
use cloudrail.Common.Text.{Text}
use cloudrail.Deployment.Outside.{Outside}
use cloudrail.Deployment.Variables.{
  Reference, Variable, Workspace, bucket_managed, check_reference, other_variable, pointed,
  put_reference, put_variable, reachable, reference, reference_at, same_scope, set_reference,
  stored, valid_variable_name, variable_at, variable_scope,
}
use cloudrail.Deployment.Variables.Cycles.{IsAcyclic-link, Reaches, links, reachable_complete}
use cloudrail.Deployment.Variables.Keys.{same_key_refl, same_key_sound}
use cloudrail.Deployment.Variables.Resolving.{IsReadable, IsWhole}
use cloudrail.Deployment.Variables.Wholeness.{HasRow, put_variable-IsReadable, put_variable-aimed}
use cloudrail.Result.{
  >>=-eq-ok, bucket_variable, different_scope, invalid_reference, no_cipher, ok, ok-injective,
  or_else, or_else-eq-ok, reference_cycle, refuse, refuse-eq-ok, require, require-eq-ok,
  target_missing, then-eq-ok,
}
use cloudrail.Secrets.{Aead, seal}

put_reference-links :
    (source : ℕ) (name : Text) (target : ℕ) (variable : Text) (rs : List Reference) (a b : ℕ)
    → exists (links a b) (put_reference source name target variable rs) ≡ true
    → (exists (links a b) rs ≡ true) ⊎ ((a ≡ source) × (b ≡ target))
unfolding put_reference
put_reference-links source name target variable rs a b =
    exists-upsert-cases (reference_at source name) (pointed target variable) _ (links a b) rs
      (λ r e l.
        let (i, _) = same_key_sound r.source r.variable_name source name e in
        (
          sym ((==_iff r.source a).0 (and_left (r.source == a) _ l)) ∙ i,
          sym ((==_iff target b).0 (and_right (r.source == a) _ l)),
        ))
      (λ l. (
        sym ((==_iff source a).0 (and_left (source == a) _ l)),
        sym ((==_iff target b).0 (and_right (source == a) _ l)),
      ))

put_reference-aimed :
    (source : ℕ) (name : Text) (target : ℕ) (variable : Text) (vs : List Variable)
    (rs : List Reference)
    → exists (variable_at target variable) vs ≡ true
    → All (λ r. exists (variable_at r.target r.target_variable) vs ≡ true) rs
    → All
        (λ r. exists (variable_at r.target r.target_variable) vs ≡ true)
        (put_reference source name target variable rs)
unfolding put_reference
put_reference-aimed source name target variable vs rs there =
    All-upsert _ (reference_at source name) (pointed target variable) _ rs (λ r _ _. there) there

-- A variable has its row after the upsert, the one that is made a reference among them.
put_reference-exists :
    (source : ℕ) (name : Text) (target : ℕ) (variable : Text) (rs : List Reference) (v : Variable)
    → HasRow rs v
    → HasRow (put_reference source name target variable rs) v
unfolding put_reference
put_reference-exists source name target variable rs v h u =
    exists-upsert (reference_at source name) (pointed target variable) _
      (reference_at v.service_id v.name) rs (λ r _ k. k) (h u)

put_variable-linked :
    (source : ℕ) (name sealed : Text) (target : ℕ) (variable : Text) (vs : List Variable)
    (rs : List Reference)
    → All (HasRow rs) vs
    → All
        (HasRow (put_reference source name target variable rs))
        (put_variable source name sealed reference vs)
unfolding put_variable put_reference
put_variable-linked source name sealed target variable vs rs h =
    let made =
      exists-upserted (reference_at source name) (pointed target variable)
        (record {
          source = source;
          variable_name = name;
          target = target;
          target_variable = variable;
        })
        (reference_at source name) rs (λ r k. k) (same_key_refl source name) in
    All-upsert _ (variable_at source name) (stored sealed reference) _ vs
      (λ v k e _. let (i, n) = same_key_sound v.service_id v.name source name e in rw (i, n) made)
      (λ _. made)
      (All-map _ _ (λ v k. put_reference-exists source name target variable rs v k) vs h)

-- What SetReference has checked where it succeeds, and what it has written.
pub record IsReferred (o : Outside) (nonce : Text) (source : ℕ) (name : Text) (target : ℕ)
    (variable : Text) (w q : Workspace) : Type 0 where
  pub cipher : Aead
  pub configured : o.cipher ≡ some cipher
  pub apart : ¬ (source ≡ target)
  pub there : exists (variable_at target variable) w.variables ≡ true
  pub back : ¬ Reaches w.references target source
  pub room : leb 64 (count (other_variable source name) w.variables) ≡ false
  pub written : q ≡ record w {
    variables =
        put_variable source name
          (seal cipher nonce [] (variable_scope source name))
          reference
          w.variables;
    references = put_reference source name target variable w.references;
  }

pub set_reference-IsReferred :
    (o : Outside) (nonce : Text) (source : ℕ) (name : Text) (target : ℕ) (variable : Text)
    (w : Workspace) {q : Workspace}
    → set_reference o nonce source name target variable w ≡ ok q
    → IsReferred o nonce source name target variable w q
unfolding set_reference check_reference
set_reference-IsReferred o nonce source name target variable w h =
    let (valid, h1) =
      then-eq-ok
        (refuse
          (not (valid_variable_name name) || not (valid_variable_name variable) || source == target)
          invalid_reference)
        _ h in
    let (_, h2) = then-eq-ok (refuse (bucket_managed source name w) bucket_variable) _ h1 in
    let (c, given, h3) = >>=-eq-ok (or_else o.cipher no_cipher) _ h2 in
    let (checked, h4) = then-eq-ok (check_reference source name target variable w) _ h3 in
    let (_, c1) =
      then-eq-ok (require (same_scope source target w.main) different_scope) _ checked in
    let (there, c2) =
      then-eq-ok (require (exists (variable_at target variable) w.variables) target_missing) _ c1 in
    let (back, room) =
      then-eq-ok (refuse (any (λ s. s == source) (reachable target w.references)) reference_cycle) _
        c2 in
    let distinct =
      or_right (not (valid_variable_name name) || not (valid_variable_name variable))
        (source == target) (refuse-eq-ok _ _ valid) in
    record {
      cipher = c;
      configured = or_else-eq-ok _ _ given;
      apart = λ e. absurd (cc ((==_iff source target).1 e, distinct));
      there = require-eq-ok _ _ there;
      back =
          λ k. absurd (cc (reachable_complete w.references target source k, refuse-eq-ok _ _ back));
      room = refuse-eq-ok _ _ room;
      written = sym (ok-injective h4);
    }

module _ (o : Outside) (c : Aead) (configured : o.cipher ≡ some c)
    (inverse : (n v s : Text) → c.decrypt n (c.encrypt n v s) s ≡ some v) (nonce : Text)
    (size : length nonce ≡ c.nonce_size) where
  pub set_reference-IsWhole :
      (source : ℕ) (name : Text) (target : ℕ) (variable : Text) (w : Workspace) {q : Workspace}
      → set_reference o nonce source name target variable w ≡ ok q
      → IsWhole c w
      → IsWhole c q
  set_reference-IsWhole source name target variable w h whole =
      let s = set_reference-IsReferred o nonce source name target variable w h in
      let same = of_some_eq (sym s.configured ∙ configured) in
      let sealed = seal s.cipher nonce [] (variable_scope source name) in
      subst (IsWhole c) (sym s.written) (record {
        acyclic =
            IsAcyclic-link source target
              (put_reference-links source name target variable w.references) s.apart s.back
              whole.acyclic;
        aimed = put_variable-aimed source name sealed reference w.variables _ (
            put_reference-aimed source name target variable w.variables w.references s.there
              whole.aimed);
        kept =
            put_variable-linked source name sealed target variable w.variables w.references
              whole.kept;
        sealed =
            subst
              (λ d. All (IsReadable c) (
                put_variable source name (seal d nonce [] (variable_scope source name)) reference
                  w.variables))
              (sym same)
              (put_variable-IsReadable c inverse nonce source name [] reference w.variables size
                whole.sealed);
      })
