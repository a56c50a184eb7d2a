-- ===== src/Deployment/Workspaces/Removing.antt =====
-- No sequence of the operations gives a service more than 64 variables: the operations that remove
-- or rename one leave the variables of the bindings, and the sequences.
use cloudrail.Common.{
  All, All-map, Bool, Bool-cases, List, [], any, ap₂, arith, false, inl, inr, or_left, or_right,
  refl, subst, suc, sym, true, ℕ, ◌&&◌, ◌++◌, ◌==◌, ◌∷◌, ◌≡◌, ◌≤◌, ◌⊎◌,
}
use cloudrail.Common.Table.{count, delete, exists, exists-false, select, update}
use cloudrail.Common.Table.Rows.{All-of, All-zip, count-none, count-update-le}
use cloudrail.Common.Table.Counts.{count-delete-le, count-update-same, count-update-sum}
use cloudrail.Common.Table.Found.{All-select}
use cloudrail.Common.Table.Writes.{exists-delete, exists-update}
use cloudrail.Common.Text.{Text, equals, equals_refl}
use cloudrail.Deployment.Buckets.{Formats, create_bucket, rotate_credentials}
use cloudrail.Deployment.Buckets.Keeping.{rotate_credentials-IsRotated}
use cloudrail.Deployment.Outside.{Outside}
use cloudrail.Deployment.Variables.{
  Binding, Key, Variable, VariableKind, Workspace, bucket_managed, delete_variable,
  managed_suffixes, move_variable, named, reference_to, rename_variable, same_key, variable_at,
  variable_scope,
}
use cloudrail.Deployment.Variables.Keys.{keys_apart, same_key_sound}
use cloudrail.Deployment.Variables.Referring.{set_reference-IsReferred}
use cloudrail.Deployment.Variables.Renaming.{rename_variable-IsRenamed}
use cloudrail.Deployment.Variables.Setting.{set_variable-IsAssigned}
use cloudrail.Deployment.Workspaces.{
  WorkspaceCall, assign, connect, create_bucket-writes, open_bucket, or_unchanged, refer, remove,
  rename, rotate, run_calls, step, without_row-ok,
}
use cloudrail.Deployment.Workspaces.Bounds.{HasNames, IsBounded, of_service_id}
use cloudrail.Deployment.Workspaces.Counting.{Bounded, bind_bucket-IsBounded, rebind-IsBounded}
use cloudrail.Deployment.Workspaces.Limits.{put_variable-IsBounded}
use cloudrail.Result.{
  Result, bucket_variable, err, ok, ok-injective, refuse, refuse-eq-ok, then-eq-ok,
  variable_referenced,
}
use cloudrail.Secrets.{seal}

any-none {ℓ} :
    {A : Type ℓ} (p : A → Bool) (xs : List A) → any p xs ≡ false → All (λ x. p x ≡ false) xs
any-none p [] h = tt
any-none p (x ∷ xs) h = (or_left (p x) _ h, any-none p xs (or_right (p x) _ h))

-- A variable that no binding manages is none of a binding's variables.
unmanaged :
    (id : ℕ) (name : Text) (w : Workspace)
    → bucket_managed id name w ≡ false
    → All
        (λ b. All (λ s. same_key b.service_id (b.prefix ++ s) id name ≡ false) managed_suffixes)
        w.bindings
unfolding bucket_managed
unmanaged id name w h =
    All-map _ _ (λ b e. names b (split b e)) w.bindings (exists-false _ w.bindings h)
  where
    swap :
        (b : Binding) (s : Text)
        → equals name (b.prefix ++ s) ≡ false
        → same_key b.service_id (b.prefix ++ s) id name ≡ false
    swap b s e = elim (Bool-cases (same_key b.service_id (b.prefix ++ s) id name)) [
      | inr t ↦ t
      | inl t ↦
          let (_, n) = same_key_sound b.service_id (b.prefix ++ s) id name t in
          absurd
            (cc (e, subst (λ x. equals x (b.prefix ++ s) ≡ true) n (equals_refl (b.prefix ++ s))))
    ]

    split :
        (b : Binding)
        → (b.service_id == id && any (λ s. equals name (b.prefix ++ s)) managed_suffixes) ≡ false
        → ((b.service_id == id) ≡ false)
          ⊎ All (λ s. equals name (b.prefix ++ s) ≡ false) managed_suffixes
    split b e = elim (Bool-cases (b.service_id == id)) [
      | inr t ↦ inl t
      | inl t ↦ inr (any-none (λ s. equals name (b.prefix ++ s)) managed_suffixes (rw t at e))
    ]

    names :
        (b : Binding)
        → ((b.service_id == id) ≡ false)
          ⊎ All (λ s. equals name (b.prefix ++ s) ≡ false) managed_suffixes
        → All (λ s. same_key b.service_id (b.prefix ++ s) id name ≡ false) managed_suffixes
    names b (inl t) =
        All-of (λ s. same_key b.service_id (b.prefix ++ s) id name ≡ false) (λ s. rw t refl)
          managed_suffixes
    names b (inr h) = All-map _ _ (λ s. swap b s) managed_suffixes h

-- The bindings' variables stay, where every variable under a name that is not managed does.
bound-kept :
    (id : ℕ) (name : Text) (w : Workspace) (ws : List Variable)
    → ((a : ℕ) (n : Text)
        → same_key a n id name ≡ false
        → exists (variable_at a n) w.variables ≡ true
        → exists (variable_at a n) ws ≡ true)
    → bucket_managed id name w ≡ false
    → Bounded w
    → All (λ b. HasNames ws b.service_id b.prefix managed_suffixes) w.bindings
bound-kept id name w ws keeps free h =
    All-map (λ b. Held b × Apart b) (λ b. HasNames ws b.service_id b.prefix managed_suffixes)
      (λ b (there, apart).
        All-map (λ s. IsHeld b s × IsApart b s)
          (λ s. exists (variable_at b.service_id (b.prefix ++ s)) ws ≡ true)
          (λ s (e, k). keeps b.service_id (b.prefix ++ s) k e) managed_suffixes
          (All-zip (IsHeld b) (IsApart b) managed_suffixes there apart))
      w.bindings (All-zip Held Apart w.bindings h.bound (unmanaged id name w free))
  where
    IsHeld : Binding → Text → Type 0
    IsHeld b s = exists (variable_at b.service_id (b.prefix ++ s)) w.variables ≡ true

    IsApart : Binding → Text → Type 0
    IsApart b s = same_key b.service_id (b.prefix ++ s) id name ≡ false

    Held : Binding → Type 0
    Held b = All (IsHeld b) managed_suffixes

    Apart : Binding → Type 0
    Apart b = All (IsApart b) managed_suffixes

delete_variable-IsBounded :
    (id : ℕ) (name : Text) (w : Workspace) {q : Workspace}
    → delete_variable id name w ≡ ok q
    → Bounded w
    → Bounded q
unfolding delete_variable
delete_variable-IsBounded id name w h bounded =
    let (free, h1) = then-eq-ok (refuse (bucket_managed id name w) bucket_variable) _ h in
    let (_, h2) =
      then-eq-ok (refuse (exists (reference_to id name) w.references) variable_referenced) _ h1 in
    subst Bounded (ok-injective h2) (record {
      unique = λ a n.
          let l = count-delete-le (variable_at a n) (variable_at id name) w.variables in
          let m = bounded.unique a n in omega arith;
      within = λ a.
          let l = count-delete-le (of_service_id a) (variable_at id name) w.variables in
          let m = bounded.within a in omega arith;
      bound =
          bound-kept id name w (delete (variable_at id name) w.variables)
            (λ a n k.
              exists-delete (variable_at a n) (variable_at id name) w.variables
                (λ v. keys_apart v.service_id v.name a n id name k))
            (refuse-eq-ok _ _ free) bounded;
    })

renamed_unique :
    (id : ℕ) (old new sealed : Text) (vs : List Variable)
    → exists (variable_at id new) vs ≡ false
    → ((a : ℕ) (n : Text) → count (variable_at a n) vs ≤ 1)
    → (a : ℕ) (n : Text)
    → count (variable_at a n) (update (variable_at id old) (named new sealed) vs) ≤ 1
renamed_unique id old new sealed vs free h a n = elim (Bool-cases (same_key id new a n)) [
  | inl t ↦
      let (i, m) = same_key_sound id new a n t in
      let z =
        subst (λ (k : Key). count (variable_at (k.0) (k.1)) vs ≡ 0) (ap₂ (λ x y. (x, y)) i m)
          (count-none (variable_at id new) vs free) in
      let l = count-update-sum (variable_at a n) (variable_at id old) (named new sealed) vs in
      let k = h id old in omega arith
  | inr t ↦
      let l = count-update-le (variable_at a n) (variable_at id old) (named new sealed) vs (
        All-of _
          (λ v e u.
            let (i, _) = same_key_sound v.service_id v.name id old e in
            absurd (cc (t, subst (λ x. same_key x new a n ≡ true) i u)))
          vs) in
      let k = h a n in omega arith
]

rename_variable-IsBounded :
    (o : Outside) (nonce : Text) (id : ℕ) (old new : Text) (w : Workspace) {q : Workspace}
    → rename_variable o nonce id old new w ≡ ok q
    → Bounded w
    → Bounded q
unfolding move_variable
rename_variable-IsBounded o nonce id old new w h bounded =
    let s = rename_variable-IsRenamed o nonce id old new w h in
    let sealed = seal s.cipher nonce s.value (variable_scope id new) in
    subst Bounded (sym s.written) (record {
      unique = renamed_unique id old new sealed w.variables s.free bounded.unique;
      within = λ a.
          let e =
            count-update-same (of_service_id a) (variable_at id old) (named new sealed) w.variables
              (λ v. refl) in
          let l = bounded.within a in rw e l;
      bound =
          bound-kept id old w (update (variable_at id old) (named new sealed) w.variables)
            (λ a n k.
              exists-update (variable_at a n) (variable_at a n) (variable_at id old)
                (named new sealed) w.variables
                (λ v e u. absurd (cc (e, keys_apart v.service_id v.name a n id old k u)))
                (λ v _ u. u))
            s.unmanaged bounded;
    })

step-IsBounded :
    (o : Outside) (f : Formats) (draw : ℕ → Text) (call : WorkspaceCall) (w : Workspace)
    {q : Workspace}
    → step o f draw call w ≡ ok q
    → Bounded w
    → Bounded q
unfolding step
step-IsBounded o f draw (assign id name value kind) w h b =
    let s = set_variable-IsAssigned o (draw 0) id name value kind w h in
    subst Bounded (sym s.written)
      (put_variable-IsBounded id name _ kind w.variables w.bindings s.room b)
step-IsBounded o f draw (refer source name target variable) w h b =
    let s = set_reference-IsReferred o (draw 0) source name target variable w h in
    subst Bounded (sym s.written)
      (put_variable-IsBounded source name _ VariableKind.reference w.variables w.bindings s.room b)
step-IsBounded o f draw (rename id old new) w h b =
    rename_variable-IsBounded o (draw 0) id old new w h b
step-IsBounded o f draw (remove id name) w h b = delete_variable-IsBounded id name w h b
step-IsBounded o f draw (open_bucket fresh known project spec) w h b =
    let (row, e) = without_row-ok (create_bucket o f fresh (draw 0) known project spec w) h in
    subst Bounded (sym (create_bucket-writes o f fresh (draw 0) known project spec w e))
      (record { unique = b.unique; within = b.within; bound = b.bound })
step-IsBounded o f draw (connect id service prefix) w h b =
    bind_bucket-IsBounded o f draw id service prefix w h b
step-IsBounded o f draw (rotate id access secret_key) w h b =
    let (row, e) = without_row-ok (rotate_credentials o f draw id access secret_key w) h in
    let s = rotate_credentials-IsRotated o f draw id access secret_key w e in
    subst Bounded (sym s.written) (
      rebind-IsBounded s.cipher draw 1 s.bucket s.keys (select (λ x. x.bucket_id == id) w.bindings)
        w.variables w.bindings
        (All-select _ _ (λ x. x.bucket_id == id) w.bindings (λ x names _. names) b.bound) b)

run_calls-IsBounded :
    (o : Outside) (f : Formats) (draw : ℕ → ℕ → Text) (n : ℕ) (calls : List WorkspaceCall)
    (w : Workspace)
    → Bounded w
    → Bounded (run_calls o f draw n calls w)
unfolding run_calls
run_calls-IsBounded o f draw n [] w b = b
run_calls-IsBounded o f draw n (call ∷ calls) w b =
    run_calls-IsBounded o f draw (suc n) calls _
      (after w (step o f (draw n) call w) (λ q e. step-IsBounded o f (draw n) call w e b) b)
  where
    after :
        (v : Workspace) (m : Result Workspace)
        → ((q : Workspace) → m ≡ ok q → Bounded q)
        → Bounded v
        → Bounded (or_unchanged v m)
    after v (err e) h k = k
    after v (ok q) h k = h q refl

-- From a workspace without variables and bindings, no sequence of setting, renaming and deleting
-- variables, making references, creating and binding buckets and rotating their credentials leaves a
-- service with more than 64 variables, or with two of one name.
-- UnbindBucket, BindDatabase and CreateDatabase are not among the calls.
pub run_calls-bounded :
    (o : Outside) (f : Formats) (draw : ℕ → ℕ → Text) (calls : List WorkspaceCall) (w : Workspace)
    (id : ℕ) (name : Text)
    → w.variables ≡ []
    → w.bindings ≡ []
    → (count (of_service_id id) (run_calls o f draw 0 calls w).variables ≤ 64)
      × (count (variable_at id name) (run_calls o f draw 0 calls w).variables ≤ 1)
unfolding count
run_calls-bounded o f draw calls w id name v b =
    let start =
      subst (λ (p : List Variable × List Binding). IsBounded (p.0) (p.1))
        (ap₂ (λ x y. (x, y)) (sym v) (sym b)) nothing in
    let r = run_calls-IsBounded o f draw 0 calls w start in (r.within id, r.unique id name)
  where
    none_yet : (p : Variable → Bool) (n : ℕ) → count p [] ≤ n
    none_yet p n = omega arith

    nothing : IsBounded [] []
    nothing = record {
      unique = λ a n. none_yet (variable_at a n) 1;
      within = λ a. none_yet (of_service_id a) 64;
      bound = tt;
    }
