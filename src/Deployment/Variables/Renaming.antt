-- ===== src/Deployment/Variables/Renaming.antt =====
-- RenameVariable keeps a workspace whole: the references to the variable and its own move along.
use cloudrail.Common.{
  ==_refl, All-map, List, ap, ap₂, false, length, not, of_some_eq, or_left, refl, some, subst, sym,
  true, ℕ, ◌||◌, ◌∙◌, ◌≡◌,
}
use cloudrail.Common.Table.{All-update, exists, find, update}
use cloudrail.Common.Table.Rows.{All-update-to}
use cloudrail.Common.Table.Writes.{exists-update, exists-update-same}
use cloudrail.Common.Text.{Text, equals, equals_refl}
use cloudrail.Deployment.Outside.{Outside}
use cloudrail.Deployment.Variables.{
  Key, Reference, Variable, Workspace, bucket_managed, check_own, move_variable, named,
  reference_at, reference_to, rename_variable, retargeted, sourced, valid_variable_name,
  variable_at, variable_scope,
}
use cloudrail.Deployment.Variables.Cycles.{Reaches-map, links}
use cloudrail.Deployment.Variables.Keys.{keys_apart, same_key_sound}
use cloudrail.Deployment.Variables.Resolving.{IsReadable, IsWhole}
use cloudrail.Deployment.Variables.Wholeness.{HasRow}
use cloudrail.Result.{
  >>=-eq-ok, bucket_variable, invalid_variable, name_taken, no_cipher, no_rows, ok, ok-injective,
  or_else, or_else-eq-ok, refuse, refuse-eq-ok, then-eq-ok,
}
use cloudrail.Secrets.{Aead, open_sealed, seal}
use cloudrail.Secrets.RoundTrip.{open-seal}

module _ (id : ℕ) (old new sealed : Text) where
  -- The variable that a reference asks for is there under the name that the reference is given.
  renamed-aimed :
      (vs : List Variable) (r : Reference)
      → exists (variable_at r.target r.target_variable) vs ≡ true
      → reference_to id old r ≡ false
      → exists
          (variable_at r.target r.target_variable)
          (update (variable_at id old) (named new sealed) vs)
        ≡ true
  renamed-aimed vs r h apart =
      exists-update (variable_at r.target r.target_variable) _ (variable_at id old)
        (named new sealed) vs
        (λ v e k.
          absurd (cc (e, keys_apart v.service_id v.name r.target r.target_variable id old apart k)))
        (λ v _ k. k) h

  retargeted-aimed :
      (vs : List Variable) (r : Reference)
      → exists (variable_at r.target r.target_variable) vs ≡ true
      → reference_to id old r ≡ true
      → exists (variable_at r.target new) (update (variable_at id old) (named new sealed) vs) ≡ true
  retargeted-aimed vs r h to =
      let (i, n) = same_key_sound r.target r.target_variable id old to in
      exists-update (variable_at r.target r.target_variable) (variable_at r.target new)
        (variable_at id old) (named new sealed) vs
        (λ v e k.
          let (j, _) = same_key_sound v.service_id v.name r.target r.target_variable k in
          rw (j, ==_refl r.target) (equals_refl new))
        (λ v e k. absurd (
          cc
            (e, subst (λ (x : Key). variable_at (x.0) (x.1) v ≡ true) (ap₂ (λ a b. (a, b)) i n) k)))
        h

  -- A variable that was not renamed keeps its row, and the renamed one has its own under the name.
  sourced-HasRow :
      (rs : List Reference) (v : Variable)
      → HasRow rs v
      → variable_at id old v ≡ false
      → HasRow (update (reference_at id old) (sourced new) rs) v
  sourced-HasRow rs v h apart u =
      exists-update (reference_at v.service_id v.name) _ (reference_at id old) (sourced new) rs
        (λ r e k.
          absurd (cc (e, keys_apart r.source r.variable_name v.service_id v.name id old apart k)))
        (λ r _ k. k) (h u)

  named-HasRow :
      (rs : List Reference) (v : Variable)
      → HasRow rs v
      → variable_at id old v ≡ true
      → HasRow (update (reference_at id old) (sourced new) rs) (named new sealed v)
  named-HasRow rs v h own u =
      let (i, n) = same_key_sound v.service_id v.name id old own in
      exists-update (reference_at v.service_id v.name) (reference_at v.service_id new)
        (reference_at id old) (sourced new) rs
        (λ r e k.
          let (j, _) = same_key_sound r.source r.variable_name v.service_id v.name k in
          rw (j, ==_refl v.service_id) (equals_refl new))
        (λ r e k. absurd (
          cc (
            e,
            subst (λ (x : Key). reference_at (x.0) (x.1) r ≡ true) (ap₂ (λ a b. (a, b)) i n) k,
          )))
        (h u)

  retargeted-HasRow :
      (rs : List Reference) (v : Variable)
      → HasRow rs v
      → HasRow (update (reference_to id old) (retargeted new) rs) v
  retargeted-HasRow rs v h u =
      exists-update-same (reference_at v.service_id v.name) (reference_to id old) (retargeted new)
        rs (λ r. refl)
      ∙ h u

-- What RenameVariable has checked where it succeeds, and what it has written.
pub record IsRenamed (o : Outside) (nonce : Text) (id : ℕ) (old new : Text) (w q : Workspace)
    : Type 0 where
  pub cipher : Aead
  pub configured : o.cipher ≡ some cipher
  pub unmanaged : bucket_managed id old w ≡ false
  pub free : exists (variable_at id new) w.variables ≡ false
  pub value : Text
  pub written : q ≡ move_variable id old new (seal cipher nonce value (variable_scope id new)) w

pub rename_variable-IsRenamed :
    (o : Outside) (nonce : Text) (id : ℕ) (old new : Text) (w : Workspace) {q : Workspace}
    → rename_variable o nonce id old new w ≡ ok q
    → IsRenamed o nonce id old new w q
unfolding rename_variable
rename_variable-IsRenamed o nonce id old new w h =
    let (_, h1) =
      then-eq-ok
        (refuse (not (valid_variable_name old) || not (valid_variable_name new) || equals old new)
          invalid_variable)
        _ h in
    let (_, h2) = then-eq-ok (check_own id w) _ h1 in
    let (c, given, h3) = >>=-eq-ok (or_else o.cipher no_cipher) _ h2 in
    let (managed, h4) =
      then-eq-ok (refuse (bucket_managed id old w || bucket_managed id new w) bucket_variable) _
        h3 in
    let (v, _, h5) = >>=-eq-ok (or_else (find (variable_at id old) w.variables) no_rows) _ h4 in
    let (free, h6) =
      then-eq-ok (refuse (exists (variable_at id new) w.variables) name_taken) _ h5 in
    let (value, _, h7) = >>=-eq-ok (open_sealed c v.ciphertext (variable_scope id old)) _ h6 in
    record {
      cipher = c;
      configured = or_else-eq-ok _ _ given;
      unmanaged = or_left (bucket_managed id old w) _ (refuse-eq-ok _ _ managed);
      free = refuse-eq-ok _ _ free;
      value = value;
      written = sym (ok-injective h7);
    }

module _ (o : Outside) (c : Aead) (configured : o.cipher ≡ some c)
    (inverse : (n v s : Text) → c.decrypt n (c.encrypt n v s) s ≡ some v) (nonce : Text)
    (size : length nonce ≡ c.nonce_size) where
  move_variable-IsWhole :
      (id : ℕ) (old new value : Text) (w : Workspace)
      → IsWhole c w
      → IsWhole c (move_variable id old new (seal c nonce value (variable_scope id new)) w)
  unfolding move_variable
  move_variable-IsWhole id old new value w whole =
      let sealed = seal c nonce value (variable_scope id new) in
      let own = update (reference_at id old) (sourced new) w.references in
      record {
        acyclic = λ a k. whole.acyclic a (
            Reaches-map
              (λ x y e.
                sym (
                  exists-update-same (links x y) (reference_at id old) (sourced new) w.references
                    (λ r. refl))
                ∙ (sym (
                      exists-update-same (links x y) (reference_to id old) (retargeted new) own
                        (λ r. refl))
                    ∙ e))
              k);
        aimed =
            All-update-to _ _ (reference_to id old) (retargeted new) own
              (λ r h e. retargeted-aimed id old new sealed w.variables r h e)
              (λ r h e. renamed-aimed id old new sealed w.variables r h e)
              (All-update _ (reference_at id old) (sourced new) w.references (λ r h _. h)
                whole.aimed);
        kept =
            All-map _ _ (λ v h. retargeted-HasRow id old new sealed own v h) _
              (All-update-to (HasRow w.references) (HasRow own) (variable_at id old)
                (named new sealed) w.variables
                (λ v h e. named-HasRow id old new sealed w.references v h e)
                (λ v h e. sourced-HasRow id old new sealed w.references v h e) whole.kept);
        sealed =
            All-update (IsReadable c) (variable_at id old) (named new sealed) w.variables
              (λ v _ e.
                let (i, _) = same_key_sound v.service_id v.name id old e in
                (value, rw i (open-seal c nonce value (variable_scope id new) size inverse)))
              whole.sealed;
      }

  pub rename_variable-IsWhole :
      (id : ℕ) (old new : Text) (w : Workspace) {q : Workspace}
      → rename_variable o nonce id old new w ≡ ok q
      → IsWhole c w
      → IsWhole c q
  rename_variable-IsWhole id old new w h whole =
      let s = rename_variable-IsRenamed o nonce id old new w h in
      let same = of_some_eq (sym s.configured ∙ configured) in
      subst (IsWhole c)
        (sym (
          s.written
          ∙ ap (λ d. move_variable id old new (seal d nonce s.value (variable_scope id new)) w)
              same))
        (move_variable-IsWhole id old new s.value w whole)
