-- ===== src/Deployment/Variables/Resolving.antt =====
-- Reading a variable: that it ends, and that it succeeds in a workspace whose references are whole.
use cloudrail.Common.{
  ==_iff, ==_refl, All, All-map, Bool, Bool-cases, List, Option, [], ap, ap₂, arith, drop, false,
  if◌then◌else◌, inl, inr, length, ltb, none, not, refl, some, subst, suc, take, true, zero, ℕ, ◌<◌,
  ◌==◌, ◌∙◌, ◌∷◌, ◌≡◌,
}
use cloudrail.Common.Table.{All-find, count, exists, find, find_sound, select}
use cloudrail.Common.Table.Counts.{count-fewer, count_le_length}
use cloudrail.Common.Table.Found.{All-select, own_row}
use cloudrail.Common.Table.Writes.{exists-found, find-exists}
use cloudrail.Common.Text.{Text}
use cloudrail.Deployment.Claim.{found}
use cloudrail.Deployment.Outside.{Env, Outside}
use cloudrail.Deployment.Variables.{
  Key, Reference, Variable, Workspace, collect, follow, is_reference, or_fallback, reference_at,
  resolve_fuel, resolve_variable, same_key, variable_at, variable_scope, variables, visited,
}
use cloudrail.Deployment.Variables.Cycles.{IsAcyclic, Reaches, Reaches-trans, directly, links}
use cloudrail.Deployment.Variables.Keys.{same_key_refl, same_key_sound}
use cloudrail.Paths.{resolve}
use cloudrail.Result.{
  >>=-not-err, >>=-ok, Error, Result, decrypt_failed, err, no_cipher, no_rows, ok, or_else,
  or_else-eq-ok, out_of_fuel, reference_cycle, refuse, refuse-eq-ok,
}
use cloudrail.Secrets.{Aead, open_sealed}

-- the value that is sealed in a row can be read
abbrev pub IsReadable : Aead → Variable → Type 0
IsReadable c v =
    (t : Text) × (open_sealed c v.ciphertext (variable_scope v.service_id v.name) ≡ ok t)

-- A reference's target is a variable; a variable of the kind `reference` has its row; no service's
-- references lead back to it; and each value is sealed for its own row.
pub record IsWhole (c : Aead) (w : Workspace) : Type 0 where
  pub acyclic : IsAcyclic w.references
  pub aimed :
      All (λ r. exists (variable_at r.target r.target_variable) w.variables ≡ true) w.references
  pub kept :
      All
        (λ v.
          is_reference v.kind ≡ true
          → exists (reference_at v.service_id v.name) w.references ≡ true)
        w.variables
  pub sealed : All (IsReadable c) w.variables

-- a row that no call that has not returned is for
abbrev unvisited : List Key → Variable → Bool
unvisited visiting v = not (visited v.service_id v.name visiting)

-- A call for a row leaves fewer rows unvisited.
unvisited-fewer :
    (vs : List Variable) (visiting : List Key) (id : ℕ) (name : Text) {v : Variable}
    → find (variable_at id name) vs ≡ some v
    → visited id name visiting ≡ false
    → count (unvisited ((id, name) ∷ visiting)) vs < count (unvisited visiting) vs
unvisited-fewer vs visiting id name {v = v} e h =
    let (i, n) =
      same_key_sound v.service_id v.name id name (find_sound (variable_at id name) vs e) in
    count-fewer (unvisited visiting) (unvisited ((id, name) ∷ visiting)) (variable_at id name) vs e
      (rw i (rw n (rw h refl))) (rw i (rw n (rw (same_key_refl id name) refl))) wider
  where
    wider :
        (y : Variable) → unvisited ((id, name) ∷ visiting) y ≡ true → unvisited visiting y ≡ true
    wider y k = ground arith

fuel_enough : (w : Workspace) → count (unvisited []) w.variables < resolve_fuel w
fuel_enough w = let l = count_le_length (unvisited []) w.variables in omega arith

or_fallback-ends :
    (s : Text) (r : Result Text) → ¬ (r ≡ err out_of_fuel) → ¬ (or_fallback s r ≡ err out_of_fuel)
or_fallback-ends [] (err no_rows) h k = cc
or_fallback-ends (c ∷ s) (err no_rows) h k = cc
or_fallback-ends s (err e) h k = ground arith
or_fallback-ends s (ok t) h k = cc

follow-ends :
    (b : Bool) (s : Text) (r : Option Reference) (resolve : ℕ → Text → Result Text)
    → ((target : ℕ) (variable : Text) → ¬ (resolve target variable ≡ err out_of_fuel))
    → ¬ ((if b then follow s r resolve else ok s) ≡ err out_of_fuel)
follow-ends false s r resolve h k = cc
follow-ends true s none resolve h k = or_fallback-ends s (err no_rows) (λ e. cc) k
follow-ends true s (some r) resolve h k =
    or_fallback-ends s (resolve r.target r.target_variable) (h r.target r.target_variable) k

or_else-ends {ℓ} :
    {A : Type ℓ} (o : Option A) (e : Error)
    → ¬ (e ≡ out_of_fuel)
    → ¬ (or_else o e ≡ err out_of_fuel)
or_else-ends none e h k = h (cc)
or_else-ends (some a) e h k = cc

open_sealed-ends : (c : Aead) (b scope : Text) → ¬ (open_sealed c b scope ≡ err out_of_fuel)
unfolding open_sealed
open_sealed-ends c b scope k = elim (Bool-cases (ltb (length b) c.nonce_size)) [
  | inl t ↦ absurd (cc (rw t at k))
  | inr t ↦
      or_else-ends (c.decrypt (take c.nonce_size b) (drop c.nonce_size b) scope) decrypt_failed
        (λ e. cc) (rw t at k)
]

refuse-ends : (b : Bool) (e : Error) → ¬ (e ≡ out_of_fuel) → ¬ (refuse b e ≡ err out_of_fuel)
refuse-ends true e h k = h (cc)
refuse-ends false e h k = cc

-- Reading a variable ends, whatever the tables hold: with more fuel than there are rows that no
-- unfinished call is for, the result is a value or an error of the program.
resolve_variable-returns :
    (o : Outside) (w : Workspace) (fuel : ℕ) (visiting : List Key) (id : ℕ) (name : Text)
    → count (unvisited visiting) w.variables < fuel
    → ¬ (resolve_variable o w fuel visiting id name ≡ err out_of_fuel)
unfolding resolve_variable
resolve_variable-returns o w zero visiting id name h = absurd (omega arith)
resolve_variable-returns o w (suc fuel) visiting id name h =
    >>=-not-err (refuse (visited id name visiting) reference_cycle) _ out_of_fuel
      (refuse-ends (visited id name visiting) reference_cycle (λ e. cc))
      (λ u free.
        >>=-not-err (or_else (find (variable_at id name) w.variables) no_rows) _ out_of_fuel
          (or_else-ends (find (variable_at id name) w.variables) no_rows (λ e. cc))
          (λ v found.
            >>=-not-err (or_else o.cipher no_cipher) _ out_of_fuel
              (or_else-ends o.cipher no_cipher (λ e. cc))
              (λ c _.
                >>=-not-err (open_sealed c v.ciphertext (variable_scope id name)) _ out_of_fuel
                  (open_sealed-ends c v.ciphertext (variable_scope id name))
                  (λ s _.
                    follow-ends (is_reference v.kind) s (find (reference_at id name) w.references) _
                      (λ target variable.
                        resolve_variable-returns o w fuel ((id, name) ∷ visiting) target variable (
                          let l =
                            unvisited-fewer w.variables visiting id name (or_else-eq-ok _ _ found)
                              (refuse-eq-ok _ _ free) in
                          omega arith))))))

-- Reading a variable ends, whatever the tables hold and the references lead to: on the fuel that is
-- the number of variables and one, the result is a value or an error of the program.
pub resolve_variable-ends :
    (o : Outside) (w : Workspace) (id : ℕ) (name : Text)
    → ¬ (resolve_variable o w (resolve_fuel w) [] id name ≡ err out_of_fuel)
resolve_variable-ends o w id name =
    resolve_variable-returns o w (resolve_fuel w) [] id name (fuel_enough w)

unvisited_key :
    (rs : List Reference) (visiting : List Key) (id : ℕ) (name : Text)
    → IsAcyclic rs
    → All (λ k. Reaches rs (k.0) id) visiting
    → visited id name visiting ≡ false
unvisited_key rs [] id name a h = refl
unvisited_key rs ((i, n) ∷ visiting) id name a (k, h) = elim (Bool-cases (same_key i n id name)) [
  | inl t ↦
      let (e, _) = same_key_sound i n id name t in absurd (a id (subst (λ x. Reaches rs x id) e k))
  | inr t ↦ rw t (unvisited_key rs visiting id name a h)
]

module _ (o : Outside) (c : Aead) (w : Workspace) (configured : o.cipher ≡ some c)
    (whole : IsWhole c w) where
  -- A row's value, from the row and the calls that it makes.
  from_row :
      (fuel : ℕ) (visiting : List Key) (id : ℕ) (name : Text) (v : Variable) (fallback : Text)
      → visited id name visiting ≡ false
      → find (variable_at id name) w.variables ≡ some v
      → open_sealed c v.ciphertext (variable_scope id name) ≡ ok fallback
      → resolve_variable o w (suc fuel) visiting id name ≡ (
          if is_reference v.kind
          then follow fallback
              (find (reference_at id name) w.references)
              (λ target variable. resolve_variable o w fuel ((id, name) ∷ visiting) target variable)
          else ok fallback)
  unfolding resolve_variable
  from_row fuel visiting id name v fallback free found opened =
      >>=-ok _ _ (ap (λ b. refuse b reference_cycle) free)
      ∙ (>>=-ok _ _ (ap (λ v. or_else v no_rows) found)
          ∙ (>>=-ok _ _ (ap (λ k. or_else k no_cipher) configured) ∙ >>=-ok _ _ opened))

  -- A variable that exists has a value, where the calls that have not returned lead to it.
  resolve_variable-succeeds :
      (fuel : ℕ) (visiting : List Key) (id : ℕ) (name : Text)
      → count (unvisited visiting) w.variables < fuel
      → All (λ k. Reaches w.references (k.0) id) visiting
      → exists (variable_at id name) w.variables ≡ true
      → (value : Text) × (resolve_variable o w fuel visiting id name ≡ ok value)
  resolve_variable-succeeds zero visiting id name l h e = absurd (omega arith)
  resolve_variable-succeeds (suc fuel) visiting id name l h e =
      let free = unvisited_key w.references visiting id name whole.acyclic h in
      let (v, found) = find-exists (variable_at id name) w.variables e in
      let (i, n) =
        same_key_sound v.service_id v.name id name
          (find_sound (variable_at id name) w.variables found) in
      let (fallback, opened) =
        subst
          (λ (k : Key).
            (t : Text) × (open_sealed c v.ciphertext (variable_scope (k.0) (k.1)) ≡ ok t))
          (ap₂ (λ x y. (x, y)) i n)
          (All-find (IsReadable c) (variable_at id name) w.variables whole.sealed found) in
      let same = from_row fuel visiting id name v fallback free found opened in
      elim (Bool-cases (is_reference v.kind)) [
        | inr t ↦ (fallback, same ∙ rw t refl)
        | inl t ↦
            let kept =
              subst (λ (k : Key). exists (reference_at (k.0) (k.1)) w.references ≡ true)
                (ap₂ (λ x y. (x, y)) i n)
                (All-find _ (variable_at id name) w.variables whole.kept found t) in
            let (r, row) = find-exists (reference_at id name) w.references kept in
            let (a, b) =
              same_key_sound r.source r.variable_name id name
                (find_sound (reference_at id name) w.references row) in
            let link : Reaches w.references id r.target = directly (
              exists-found (links id r.target) (reference_at id name) w.references row
                (rw (a, ==_refl id) (==_refl r.target))) in
            let (value, read) =
              resolve_variable-succeeds fuel ((id, name) ∷ visiting) r.target r.target_variable
                (let f = unvisited-fewer w.variables visiting id name found free in omega arith)
                (link, All-map _ _ (λ k x. Reaches-trans x link) visiting h)
                (All-find _ (reference_at id name) w.references whole.aimed row) in
            (value, same ∙ rw t (rw row (rw read refl)))
      ]

  -- In a workspace whose references are whole each variable that exists has a value.
  pub resolve_variable-total :
      (id : ℕ) (name : Text)
      → exists (variable_at id name) w.variables ≡ true
      → (value : Text) × (resolve_variable o w (resolve_fuel w) [] id name ≡ ok value)
  resolve_variable-total id name =
      resolve_variable-succeeds (resolve_fuel w) [] id name (fuel_enough w) tt

  collect-total :
      (id : ℕ) (vs : List Variable)
      → All (λ v. exists (variable_at id v.name) w.variables ≡ true) vs
      → (env : Env) × (collect o w id vs ≡ ok env)
  unfolding collect
  collect-total id [] h = ([], refl)
  collect-total id (v ∷ vs) (k, h) =
      let (value, e) = resolve_variable-total id v.name k in
      let (env, f) = collect-total id vs h in ((v.name, value) ∷ env, rw (e, f) refl)

  -- In a workspace whose references are whole a service's variables are read without an error: a
  -- deployment does not fail for want of one.
  pub variables-total : (id : ℕ) → (env : Env) × (variables o w id ≡ ok env)
  unfolding variables
  variables-total id = collect-total id (select (λ v. v.service_id == id) w.variables) (
      All-select _ _ (λ v. v.service_id == id) w.variables
        (λ v h t.
          subst (λ i. exists (variable_at i v.name) w.variables ≡ true)
            ((==_iff v.service_id id).0 t) h)
        (own_row (λ v. variable_at v.service_id v.name) w.variables
          (λ v. same_key_refl v.service_id v.name)))
