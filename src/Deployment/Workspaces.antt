-- ===== src/Deployment/Workspaces.antt =====
-- deployment/workspace.go and buckets.go: sequences of the operations on variables and buckets, each
-- in a transaction of its own, which an error rolls back. UnbindBucket, after which a reference may
-- have no target, BindDatabase and CreateDatabase are left out of them.
pub mod Bounds
pub mod Limits
pub mod Counting
pub mod Removing
pub mod Tests
use cloudrail.Auth.{configured}
use cloudrail.Common.{
  Bool, List, [], ap, ap₂, leb, length, refl, some, subst, suc, sym, ℕ, ◌&&◌, ◌++◌, ◌||◌, ◌∙◌, ◌∷◌,
  ◌≡◌,
}
use cloudrail.Common.Table.{exists}
use cloudrail.Common.Text.{Text}
use cloudrail.Deployment.Buckets.{
  BucketSpec, Formats, bind_bucket, bucket_by_id, bucket_named, create_bucket, rotate_credentials,
  validate_bucket,
}
use cloudrail.Deployment.Buckets.Keeping.{bind_bucket-IsWhole, rotate_credentials-IsWhole}
use cloudrail.Deployment.Outside.{Env, Outside}
use cloudrail.Deployment.Variables.{
  Bucket, Reference, Variable, VariableKind, Workspace, delete_variable, rename_variable,
  set_reference, set_variable, variables,
}
use cloudrail.Deployment.Variables.Cycles.{nowhere}
use cloudrail.Deployment.Variables.Referring.{set_reference-IsWhole}
use cloudrail.Deployment.Variables.Renaming.{rename_variable-IsWhole}
use cloudrail.Deployment.Variables.Resolving.{IsWhole, variables-total}
use cloudrail.Deployment.Variables.Setting.{delete_variable-IsWhole, set_variable-IsWhole}
use cloudrail.Result.{
  >>=-eq-ok, Result, check_violation, duplicate_key, err, no_cipher, ok, ok-injective, or_else,
  refuse, require, then-eq-ok,
}
use cloudrail.Secrets.{Aead}

pub data WorkspaceCall : Type 0 where
  assign : ℕ → Text → Text → VariableKind → WorkspaceCall
  refer : ℕ → Text → ℕ → Text → WorkspaceCall
  rename : ℕ → Text → Text → WorkspaceCall
  remove : ℕ → Text → WorkspaceCall
  open_bucket : ℕ → Bool → ℕ → BucketSpec → WorkspaceCall
  connect : ℕ → ℕ → Text → WorkspaceCall
  rotate : ℕ → Text → Text → WorkspaceCall

-- an operation's workspace, without the row that it returns
abbrev pub without_row {ℓ} : {A : Type ℓ} → Result (A × Workspace) → Result Workspace
without_row (err e) = err e
without_row (ok (a, w)) = ok w

unfoldable pub step : Outside → Formats → (ℕ → Text) → WorkspaceCall → Workspace → Result Workspace
step o f draw (assign id name value kind) w = set_variable o (draw 0) id name value kind w
step o f draw (refer source name target variable) w =
    set_reference o (draw 0) source name target variable w
step o f draw (rename id old new) w = rename_variable o (draw 0) id old new w
step o f draw (remove id name) w = delete_variable id name w
step o f draw (open_bucket fresh known project spec) w =
    without_row (create_bucket o f fresh (draw 0) known project spec w)
step o f draw (connect id service prefix) w = bind_bucket o f draw id service prefix w
step o f draw (rotate id access secret_key) w =
    without_row (rotate_credentials o f draw id access secret_key w)

abbrev pub or_unchanged : Workspace → Result Workspace → Workspace
or_unchanged w (err e) = w
or_unchanged w (ok q) = q

-- `draw n` is what rand.Read returns during the n-th call
unfoldable pub run_calls :
    Outside → Formats → (ℕ → ℕ → Text) → ℕ → List WorkspaceCall → Workspace → Workspace
unfolding step
run_calls o f draw n [] w = w
run_calls o f draw n (call ∷ calls) w =
    run_calls o f draw (suc n) calls (or_unchanged w (step o f (draw n) call w))

pub without_row-ok {ℓ} :
    {A : Type ℓ} (m : Result (A × Workspace)) {q : Workspace}
    → without_row m ≡ ok q
    → (a : A) × (m ≡ ok (a, q))
without_row-ok (err e) h = absurd (cc)
without_row-ok (ok (a, w)) h = (a, ap (λ x. ok (a, x)) (ok-injective h))

-- What CreateBucket has written where it succeeds.
pub create_bucket-writes :
    (o : Outside) (f : Formats) (fresh : ℕ) (nonce : Text) (known : Bool) (project : ℕ)
    (spec : BucketSpec) (w : Workspace) {r : Bucket × Workspace}
    → create_bucket o f fresh nonce known project spec w ≡ ok r
    → r.1 ≡ record w { buckets = w.buckets ++ (r.0) ∷ [] }
unfolding create_bucket
create_bucket-writes o f fresh nonce known project spec w h =
    let (s, _, h1) = >>=-eq-ok (validate_bucket f spec) _ h in
    let (d, _, h2) = >>=-eq-ok (or_else o.cipher no_cipher) _ h1 in
    let (_, h3) = then-eq-ok (require (known && leb 8 (length s.endpoint)) check_violation) _ h2 in
    let (_, h4) =
      then-eq-ok
        (refuse
          (exists (bucket_by_id fresh) w.buckets
            || exists (bucket_named project s.environment s.name) w.buckets)
          duplicate_key)
        _ h3 in
    let e = ok-injective h4 in
    sym (ap (λ p. p.1) e) ∙ ap (λ p. record w { buckets = w.buckets ++ (p.0) ∷ [] }) e

create_bucket-IsWhole :
    (c : Aead) (w : Workspace) (b : Bucket) {q : Workspace}
    → q ≡ record w { buckets = w.buckets ++ b ∷ [] }
    → IsWhole c w
    → IsWhole c q
create_bucket-IsWhole c w b e whole = subst (IsWhole c) (sym e) (record {
  acyclic = whole.acyclic;
  aimed = whole.aimed;
  kept = whole.kept;
  sealed = whole.sealed;
})

module _ (o : Outside) (f : Formats) (c : Aead) (configured : o.cipher ≡ some c)
    (inverse : (n v s : Text) → c.decrypt n (c.encrypt n v s) s ≡ some v) (draw : ℕ → ℕ → Text)
    (sizes : (n m : ℕ) → length (draw n m) ≡ c.nonce_size) where
  step-IsWhole :
      (n : ℕ) (call : WorkspaceCall) (w : Workspace) {q : Workspace}
      → step o f (draw n) call w ≡ ok q
      → IsWhole c w
      → IsWhole c q
  unfolding step
  step-IsWhole n (assign id name value kind) w h =
      set_variable-IsWhole o c configured inverse (draw n 0) (sizes n 0) id name value kind w h
  step-IsWhole n (refer source name target variable) w h =
      set_reference-IsWhole o c configured inverse (draw n 0) (sizes n 0) source name target
        variable w h
  step-IsWhole n (rename id old new) w h =
      rename_variable-IsWhole o c configured inverse (draw n 0) (sizes n 0) id old new w h
  step-IsWhole n (remove id name) w h = delete_variable-IsWhole c id name w h
  step-IsWhole n (open_bucket fresh known project spec) w h =
      let (b, e) = without_row-ok (create_bucket o f fresh (draw n 0) known project spec w) h in
      create_bucket-IsWhole c w b (create_bucket-writes o f fresh (draw n 0) known project spec w e)
  step-IsWhole n (connect id service prefix) w h =
      bind_bucket-IsWhole o f c configured inverse (draw n) (sizes n) id service prefix w h
  step-IsWhole n (rotate id access secret_key) w h =
      rotate_credentials-IsWhole o f c configured inverse (draw n) (sizes n) id access secret_key w
        (without_row-ok (rotate_credentials o f (draw n) id access secret_key w) h).1

  or_unchanged-IsWhole :
      (w : Workspace) (m : Result Workspace)
      → ((q : Workspace) → m ≡ ok q → IsWhole c w → IsWhole c q)
      → IsWhole c w
      → IsWhole c (or_unchanged w m)
  or_unchanged-IsWhole w (err e) h whole = whole
  or_unchanged-IsWhole w (ok q) h whole = h q refl whole

  run_calls-IsWhole :
      (n : ℕ) (calls : List WorkspaceCall) (w : Workspace)
      → IsWhole c w
      → IsWhole c (run_calls o f draw n calls w)
  unfolding run_calls
  run_calls-IsWhole n [] w whole = whole
  run_calls-IsWhole n (call ∷ calls) w whole =
      run_calls-IsWhole (suc n) calls _
        (or_unchanged-IsWhole w (step o f (draw n) call w) (λ q e. step-IsWhole n call w e) whole)

  nothing-IsWhole : (w : Workspace) → w.variables ≡ [] → w.references ≡ [] → IsWhole c w
  nothing-IsWhole w v r =
      subst
        (λ (p : List Variable × List Reference).
          IsWhole c (record w { variables = p.0; references = p.1 }))
        (ap₂ (λ x y. (x, y)) (sym v) (sym r))
        (record { acyclic = λ a k. nowhere k; aimed = tt; kept = tt; sealed = tt })

  -- With a cipher that decrypts what it encrypted and nonces of its size: from a workspace without
  -- variables and references, after any sequence of setting, renaming and deleting variables, making
  -- references, creating and binding buckets and rotating their credentials, refused calls among them,
  -- the variables of every service are read without an error. UnbindBucket, BindDatabase and
  -- CreateDatabase are not among the calls.
  pub run_calls-readable :
      (calls : List WorkspaceCall) (w : Workspace) (id : ℕ)
      → w.variables ≡ []
      → w.references ≡ []
      → (env : Env) × (variables o (run_calls o f draw 0 calls w) id ≡ ok env)
  run_calls-readable calls w id v r =
      variables-total o c (run_calls o f draw 0 calls w) configured
        (run_calls-IsWhole 0 calls w (nothing-IsWhole w v r)) id
