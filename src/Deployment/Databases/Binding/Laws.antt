-- ===== src/Deployment/Databases/Binding/Laws.antt =====
-- What an application reads after BindDatabase.
use cloudrail.Common.{
  List, [], ap₂, ==-apart, ap, false, length, none, of_some_eq, refl, some, suc, sym, true, ℕ, ◌==◌,
  ◌∙◌, ◌∷◌, ◌≡◌, Option, subst, if◌then◌else◌,
}
use cloudrail.Common.Table.{find, find-update, update, find_sound, updated, delete}
use cloudrail.Common.Table.Found.{find-upsert-other, find-upserted}
use cloudrail.Common.Text.{Text, is_empty}
use cloudrail.Deployment.Databases.Binding.{
  as_reference, bind_database, check_binding, connected, connection, kept, moved, referred, url_of,
}
use cloudrail.Deployment.Databases.{database_host}
use cloudrail.Deployment.Model.{Service}
use cloudrail.Deployment.Outside.{Outside}
use cloudrail.Deployment.Variables.{
  Key, Reference, Variable, Workspace, follow, is_reference, or_fallback, pointed, put_reference,
  put_variable, reference_at, resolve_variable, secret, set_variable, stored, variable_at,
  variable_scope, visited, variables, same_key,
}
use cloudrail.Deployment.Variables.Keys.{same_key_refl, keys_apart}
use cloudrail.Deployment.Variables.Reading.{read_missing}
use cloudrail.Deployment.Variables.Setting.{set_variable-IsAssigned}
use cloudrail.Deployment.Volumes.{Names, service_with}
use cloudrail.Result.{
  >>=-ok, >>=-eq-ok, then-eq-ok, refuse-eq-ok, no_credentials, Error, Result, err, no_cipher,
  no_rows, ok, ok-injective, or_else, reference_cycle, refuse,
}
use cloudrail.Secrets.{Aead, open_sealed, seal}
use cloudrail.Secrets.RoundTrip.{open-seal}

-- A step that ends without an error has succeeded.
kept-none {ℓ} :
    {A : Type ℓ} (r : Result A) (w : Workspace) (next : A → Option Error × Workspace)
    {q : Workspace}
    → kept r w next ≡ (none, q)
    → (x : A) × (r ≡ ok x) × (next x ≡ (none, q))
kept-none (err e) w next h = absurd (cc (ap (λ x. x.0) h))
kept-none (ok x) w next h = (x, refl, h)

-- A reference that has a fallback, and whose target is missing, reads as the fallback.
read_fallback :
    (o : Outside) (c : Aead) (w : Workspace) (fuel : ℕ) (visiting : List Key) (id : ℕ) (name : Text)
    (v : Variable) (r : Reference) (b : ℕ) (rest : Text)
    → o.cipher ≡ some c
    → visited id name visiting ≡ false
    → find (variable_at id name) w.variables ≡ some v
    → is_reference v.kind ≡ true
    → open_sealed c v.ciphertext (variable_scope id name) ≡ ok (b ∷ rest)
    → find (reference_at id name) w.references ≡ some r
    → resolve_variable o w fuel ((id, name) ∷ visiting) r.target r.target_variable ≡ err no_rows
    → resolve_variable o w (suc fuel) visiting id name ≡ ok (b ∷ rest)
unfolding resolve_variable
read_fallback o c w fuel visiting id name v r b rest configured free found own opened row missing =
    >>=-ok _ _ (ap (λ x. refuse x reference_cycle) free)
    ∙ (>>=-ok _ _ (ap (λ x. or_else x no_rows) found)
        ∙ (>>=-ok _ _ (ap (λ x. or_else x no_cipher) configured)
            ∙ (>>=-ok _ _ opened
                ∙ rw own (
                    ap
                      (λ x. follow (b ∷ rest) x (λ target variable.
                        resolve_variable o w fuel ((id, name) ∷ visiting) target variable))
                      row
                    ∙ ap (or_fallback (b ∷ rest)) missing))))

-- A connection that is found is not empty.
connection_full :
    (o : Outside) (database : ℕ) (w : Workspace) (value variable : Text)
    → connection o database w ≡ ok (value, variable)
    → is_empty value ≡ false
unfolding connection
connection_full o database w value variable h =
    let (d, _, h1) =
      >>=-eq-ok (or_else (find (service_with database) w.main.services) no_rows) _ h in
    let (env, _, h2) = >>=-eq-ok (variables o w database) _ h1 in
    let c = url_of d.template_key (database_host database) env in
    let (full, same) = then-eq-ok (refuse (is_empty (c.0)) no_credentials) (ok c) h2 in
    ap (λ x. is_empty (x.0)) (sym (ok-injective same)) ∙ refuse-eq-ok _ _ full

-- The move to the network leaves the variables and the references.
moved-variables :
    (names : Names) (target : ℕ) (w : Workspace) (a : Option Service)
    → (moved names target w a).variables ≡ w.variables
moved-variables names target w none = refl
moved-variables names target w (some a) = refl

connected-variables :
    (names : Names) (target : ℕ) (w : Workspace)
    → (connected names target w).variables ≡ w.variables
unfolding connected
connected-variables names target w =
    moved-variables names target w (find (service_with target) w.main.services)

-- What BindDatabase has written where it ends without an error.
bound_rows :
    (o : Outside) (names : Names) (nonce : Text) (database target : ℕ) (name : Text) (w : Workspace)
    {q : Workspace} {value variable : Text}
    → connection o database (connected names target w) ≡ ok (value, variable)
    → bind_database o names nonce database target name w ≡ (none, q)
    → (x : Workspace) × (set_variable o nonce target name value secret (connected names target w)
        ≡ ok x)
      × (q ≡ referred target name database variable x)
unfolding bind_database
bound_rows o names nonce database target name w {q = q} url h =
    let there = connected names target w in
    let (_, _, h1) = kept-none (check_binding database target name w) w _ h in
    let (c, e, h2) = kept-none (connection o database there) there _ h1 in
    let (x, set, h3) = kept-none (set_variable o nonce target name (c.0) secret there) there _ h2 in
    subst
      (λ c.
        (x : Workspace) × (set_variable o nonce target name (c.0) secret there ≡ ok x)
        × (q ≡ referred target name database (c.1) x))
      (ok-injective (sym e ∙ url)) (x, set, sym (ap (λ r. r.1) h3))

module _ (target : ℕ) (name text : Text) (vs : List Variable) where
  -- the variable's rows after SetVariable and the change of its kind
  abbrev rows : List Variable
  rows = update (variable_at target name) as_reference (put_variable target name text secret vs)

  bound_row :
      (z : Variable) × (find (variable_at target name) rows ≡ some z)
      × (z.ciphertext ≡ text)
      × (is_reference z.kind ≡ true)
  unfolding put_variable
  bound_row =
      let p = variable_at target name in
      let (z, found, sealed) =
        find-upserted (λ v. v.ciphertext ≡ text) p (stored text secret)
          (record { service_id = target; name = name; ciphertext = text; kind = secret }) vs
          (λ v e. e) (same_key_refl target name) (λ v e. refl) refl in
      let changed : (if p z then as_reference z else z) ≡ as_reference z =
        rw (find_sound p (put_variable target name text secret vs) found) refl in
      (
        as_reference z,
        find-update p p as_reference (put_variable target name text secret vs) (λ v. refl)
            ∙ (ap (updated p as_reference) found ∙ ap some changed),
        sealed,
        refl,
      )

  -- A row of another service is as it was.
  other_row :
      (database : ℕ) (variable : Text)
      → ¬ (database ≡ target)
      → find (variable_at database variable) vs ≡ none
      → find (variable_at database variable) rows ≡ none
  unfolding put_variable
  other_row database variable apart missing =
      let new : (target == database) ≡ false = ==-apart (λ e. apart (sym e)) in
      let k : same_key target name database variable ≡ false = rw new refl in
      find-update (variable_at database variable) (variable_at target name) as_reference _
        (λ v. refl)
      ∙ ap (updated (variable_at target name) as_reference) (
          find-upsert-other (variable_at database variable) (variable_at target name)
            (stored text secret) _ vs (λ v. refl) elsewhere k
          ∙ missing)
    where
      elsewhere :
          (v : Variable)
          → variable_at database variable v ≡ true
          → variable_at target name v ≡ false
      elsewhere v e =
          keys_apart v.service_id v.name database variable target name (rw (==-apart apart) refl) e

-- The row of the reference.
reference_row :
    (target : ℕ) (name : Text) (database : ℕ) (variable : Text) (rs : List Reference)
    → (r : Reference) × (find
          (reference_at target name)
          (put_reference target name database variable rs)
        ≡ some r)
      × (r.target ≡ database)
      × (r.target_variable ≡ variable)
unfolding put_reference
reference_row target name database variable rs =
    let (r, found, (to, at)) =
      find-upserted (λ r. (r.target ≡ database) × (r.target_variable ≡ variable))
        (reference_at target name) (pointed database variable)
        (record {
          source = target;
          variable_name = name;
          target = database;
          target_variable = variable;
        })
        rs (λ r e. e) (same_key_refl target name) (λ r e. (refl, refl)) (refl, refl) in
    (r, found, to, at)

-- With a cipher that decrypts what it encrypted and a nonce of its size: where BindDatabase ends
-- without an error, and the database service has no variable of the name that the reference takes, as
-- one of PostgreSQL has none at first, the application reads the connection under the name given.
pub bind_database-resolve_variable :
    (o : Outside) (c : Aead) (names : Names) (nonce : Text) (database target : ℕ) (name : Text)
    (w : Workspace) (fuel : ℕ) (value variable : Text) {q : Workspace}
    → o.cipher ≡ some c
    → ((n v s : Text) → c.decrypt n (c.encrypt n v s) s ≡ some v)
    → length nonce ≡ c.nonce_size
    → ¬ (database ≡ target)
    → connection o database (connected names target w) ≡ ok (value, variable)
    → find (variable_at database variable) w.variables ≡ none
    → bind_database o names nonce database target name w ≡ (none, q)
    → resolve_variable o q (suc (suc fuel)) [] target name ≡ ok value
unfolding referred
bind_database-resolve_variable o c names nonce database target name w fuel [] variable configured
      inverse size apart url missing h =
    absurd (cc (connection_full o database (connected names target w) [] variable url))
bind_database-resolve_variable o c names nonce database target name w fuel (b ∷ rest) variable
      {q = q} configured inverse size apart url missing h =
    let (x, set, same) = bound_rows o names nonce database target name w url h in
    let there = connected names target w in
    let s = set_variable-IsAssigned o nonce target name (b ∷ rest) secret there set in
    let same_cipher = of_some_eq (sym s.configured ∙ configured) in
    let text = seal s.cipher nonce (b ∷ rest) (variable_scope target name) in
    let vs = there.variables in
    let rs = delete (reference_at target name) there.references in
    let variables : q.variables ≡ rows target name text vs =
      ap (λ y. y.variables) same
      ∙ ap (λ y. update (variable_at target name) as_reference y.variables) s.written in
    let references : q.references ≡ put_reference target name database variable rs =
      ap (λ y. y.references) same
      ∙ ap (λ y. put_reference target name database variable y.references) s.written in
    let (z, found, sealed, kind) = bound_row target name text vs in
    let (r, refers, to, at) = reference_row target name database variable rs in
    let gone =
      other_row target name text vs database variable apart (
        ap (find (variable_at database variable)) (connected-variables names target w) ∙ missing) in
    let away : visited database variable ((target, name) ∷ []) ≡ false =
      rw (==-apart (λ e. apart (sym e))) refl in
    let lost : resolve_variable o q (suc fuel) ((target, name) ∷ []) database variable
        ≡ err no_rows =
      read_missing o q fuel ((target, name) ∷ []) database variable away
        (ap (find (variable_at database variable)) variables ∙ gone) in
    read_fallback o c q (suc fuel) [] target name z r b rest configured refl
      (ap (find (variable_at target name)) variables ∙ found) kind
      (ap (λ t. open_sealed c t (variable_scope target name))
          (sealed ∙ ap (λ d. seal d nonce (b ∷ rest) (variable_scope target name)) same_cipher)
        ∙ open-seal c nonce (b ∷ rest) (variable_scope target name) size inverse)
      (ap (find (reference_at target name)) references ∙ refers)
      (ap₂ (resolve_variable o q (suc fuel) ((target, name) ∷ [])) to at ∙ lost)
