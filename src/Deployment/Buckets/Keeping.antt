-- ===== src/Deployment/Buckets/Keeping.antt =====
-- BindBucket and RotateBucketCredentials keep a workspace whole.
use cloudrail.Common.{
  All, All-map, List, [], ap, length, of_some_eq, some, subst, suc, sym, true, ℕ, ◌+◌, ◌==◌, ◌∙◌,
  ◌∷◌, ◌≡◌,
}
use cloudrail.Common.Table.{exists, find, select, update}
use cloudrail.Common.Table.Found.{All-upsert}
use cloudrail.Common.Table.Writes.{exists-upsert}
use cloudrail.Common.Text.{Text, is_space, trim}
use cloudrail.Deployment.Buckets.{
  Credentials, Formats, bind_bucket, bind_entries, bound, bucket_by_id, bucket_scope,
  bucket_variables, check_prefix, may_bind, open_credentials, put_bound, rebind, resealed,
  rotate_credentials, rotated, upper_prefix, valid_prefix, validate_credentials,
}
use cloudrail.Deployment.Claim.{found}
use cloudrail.Deployment.Outside.{Env, Outside}
use cloudrail.Deployment.Variables.{
  Binding, Bucket, Reference, Variable, Workspace, variable_at, variable_scope,
}
use cloudrail.Deployment.Variables.Keys.{same_key_sound}
use cloudrail.Deployment.Variables.Resolving.{IsReadable, IsWhole}
use cloudrail.Deployment.Variables.Wholeness.{HasRow}
use cloudrail.Result.{
  >>=-eq-ok, different_scope, invalid_prefix, no_cipher, no_rows, ok, ok-injective, or_else,
  or_else-eq-ok, require, then-eq-ok,
}
use cloudrail.Secrets.{Aead, seal}
use cloudrail.Secrets.RoundTrip.{open-seal}

module _ (c : Aead) (inverse : (n v s : Text) → c.decrypt n (c.encrypt n v s) s ≡ some v)
    (draw : ℕ → Text) (sizes : (n : ℕ) → length (draw n) ≡ c.nonce_size) (rs : List Reference) where
  -- what the variables of a whole workspace with these references satisfy
  abbrev Fits : List Variable → Type 0
  Fits vs =
      All (λ r. exists (variable_at r.target r.target_variable) vs ≡ true) rs
      × All (HasRow rs) vs
      × All (IsReadable c) vs

  put_bound-Fits :
      (n id : ℕ) (name value : Text) (vs : List Variable)
      → Fits vs
      → Fits (put_bound id name (seal c (draw n) value (variable_scope id name)) vs)
  unfolding put_bound
  put_bound-Fits n id name value vs (aimed, kept, sealed) =
      let text = seal c (draw n) value (variable_scope id name) in
      let opens = open-seal c (draw n) value (variable_scope id name) (sizes n) inverse in
      (
        All-map _ _
            (λ r h.
              exists-upsert (variable_at id name) (resealed text) _
                (variable_at r.target r.target_variable) vs (λ v _ k. k) h)
            rs aimed,
        All-upsert (HasRow rs) (variable_at id name) (resealed text) _ vs (λ v k _. k)
            (λ u. absurd (cc)) kept,
        All-upsert (IsReadable c) (variable_at id name) (resealed text) _ vs
            (λ v _ e.
              let (i, m) = same_key_sound v.service_id v.name id name e in (value, rw (i, m) opens))
            (value, opens) sealed,
      )

  bind_entries-Fits :
      (n id : ℕ) (entries : Env) (vs : List Variable)
      → Fits vs
      → Fits (bind_entries c draw n id entries vs)
  unfolding bind_entries
  bind_entries-Fits n id [] vs h = h
  bind_entries-Fits n id (e ∷ rest) vs h =
      bind_entries-Fits (suc n) id rest _ (put_bound-Fits n id (e.0) (e.1) vs h)

  rebind-Fits :
      (n : ℕ) (b : Bucket) (k : Credentials) (xs : List Binding) (vs : List Variable)
      → Fits vs
      → Fits (rebind c draw n b k xs vs)
  unfolding rebind
  rebind-Fits n b k [] vs h = h
  rebind-Fits n b k (x ∷ xs) vs h =
      rebind-Fits (n + 6) b k xs _
        (bind_entries-Fits n x.service_id (bucket_variables x.prefix b k) vs h)

-- What BindBucket has found and checked where it succeeds, and what it has written.
pub record IsBound (o : Outside) (f : Formats) (draw : ℕ → Text) (id service : ℕ) (prefix : Text)
    (w q : Workspace) : Type 0 where
  pub cipher : Aead
  pub configured : o.cipher ≡ some cipher
  pub bucket : Bucket
  pub keys : Credentials
  pub bucket_found : find (bucket_by_id id) w.buckets ≡ some bucket
  pub checked : check_prefix id service prefix w ≡ ok tt
  pub written : q ≡ bound cipher draw bucket service prefix keys w

pub bind_bucket-IsBound :
    (o : Outside) (f : Formats) (draw : ℕ → Text) (id service : ℕ) (given : Text) (w : Workspace)
    {q : Workspace}
    → bind_bucket o f draw id service given w ≡ ok q
    → IsBound o f draw id service (upper_prefix given) w q
unfolding bind_bucket
bind_bucket-IsBound o f draw id service given w h =
    let (_, h1) = then-eq-ok (require (valid_prefix (upper_prefix given)) invalid_prefix) _ h in
    let (b, found, h2) = >>=-eq-ok (or_else (find (bucket_by_id id) w.buckets) no_rows) _ h1 in
    let (_, h3) =
      then-eq-ok (require (exists (may_bind b service) w.main.services) different_scope) _ h2 in
    let (checked, h4) = then-eq-ok (check_prefix id service (upper_prefix given) w) _ h3 in
    let (k, _, h5) = >>=-eq-ok (open_credentials o f b) _ h4 in
    let (c, cipher, h6) = >>=-eq-ok (or_else o.cipher no_cipher) _ h5 in
    record {
      cipher = c;
      configured = or_else-eq-ok _ _ cipher;
      bucket = b;
      keys = k;
      bucket_found = or_else-eq-ok _ _ found;
      checked = checked;
      written = sym (ok-injective h6);
    }

-- What RotateBucketCredentials has written where it succeeds.
pub record IsRotated (o : Outside) (draw : ℕ → Text) (id : ℕ) (w q : Workspace) : Type 0 where
  pub cipher : Aead
  pub configured : o.cipher ≡ some cipher
  pub bucket : Bucket
  pub keys : Credentials
  pub buckets : List Bucket
  pub written : q ≡ record w {
    buckets = buckets;
    variables =
        rebind cipher draw 1 bucket keys (select (λ x. x.bucket_id == id) w.bindings) w.variables;
  }

pub rotate_credentials-IsRotated :
    (o : Outside) (f : Formats) (draw : ℕ → Text) (id : ℕ) (access secret_key : Text)
    (w : Workspace) {r : Bucket × Workspace}
    → rotate_credentials o f draw id access secret_key w ≡ ok r
    → IsRotated o draw id w (r.1)
unfolding rotate_credentials
rotate_credentials-IsRotated o f draw id access secret_key w h =
    let (_, h1) = then-eq-ok (validate_credentials (trim is_space access) secret_key) _ h in
    let (d, given, h2) = >>=-eq-ok (or_else o.cipher no_cipher) _ h1 in
    let (b, _, h3) = >>=-eq-ok (or_else (find (bucket_by_id id) w.buckets) no_rows) _ h2 in
    let k : Credentials = record { access_key = trim is_space access; secret_key = secret_key } in
    record {
      cipher = d;
      configured = or_else-eq-ok _ _ given;
      bucket = b;
      keys = k;
      buckets =
          update (bucket_by_id id)
            (rotated (seal d (draw 0) (f.marshal_credentials k) (bucket_scope id))) w.buckets;
      written = sym (ap (λ p. p.1) (ok-injective h3));
    }

module _ (o : Outside) (f : Formats) (c : Aead) (configured : o.cipher ≡ some c)
    (inverse : (n v s : Text) → c.decrypt n (c.encrypt n v s) s ≡ some v) (draw : ℕ → Text)
    (sizes : (n : ℕ) → length (draw n) ≡ c.nonce_size) where
  bound-IsWhole :
      (b : Bucket) (service : ℕ) (prefix : Text) (k : Credentials) (w : Workspace)
      → IsWhole c w
      → IsWhole c (bound c draw b service prefix k w)
  unfolding bound
  bound-IsWhole b service prefix k w whole =
      let (aimed, kept, sealed) =
        bind_entries-Fits c inverse draw sizes w.references 0 service (bucket_variables prefix b k)
          w.variables (whole.aimed, whole.kept, whole.sealed) in
      record { acyclic = whole.acyclic; aimed = aimed; kept = kept; sealed = sealed }

  pub bind_bucket-IsWhole :
      (id service : ℕ) (given : Text) (w : Workspace) {q : Workspace}
      → bind_bucket o f draw id service given w ≡ ok q
      → IsWhole c w
      → IsWhole c q
  bind_bucket-IsWhole id service given w h whole =
      let s = bind_bucket-IsBound o f draw id service given w h in
      let same = of_some_eq (sym s.configured ∙ configured) in
      subst (IsWhole c)
        (sym
          (s.written ∙ ap (λ d. bound d draw s.bucket service (upper_prefix given) s.keys w) same))
        (bound-IsWhole s.bucket service (upper_prefix given) s.keys w whole)

  rotated-IsWhole :
      (bs : List Bucket) (b : Bucket) (k : Credentials) (xs : List Binding) (w : Workspace)
      → IsWhole c w
      → IsWhole c (record w { buckets = bs; variables = rebind c draw 1 b k xs w.variables })
  rotated-IsWhole bs b k xs w whole =
      let (aimed, kept, sealed) =
        rebind-Fits c inverse draw sizes w.references 1 b k xs w.variables
          (whole.aimed, whole.kept, whole.sealed) in
      record { acyclic = whole.acyclic; aimed = aimed; kept = kept; sealed = sealed }

  pub rotate_credentials-IsWhole :
      (id : ℕ) (access secret_key : Text) (w : Workspace) {r : Bucket × Workspace}
      → rotate_credentials o f draw id access secret_key w ≡ ok r
      → IsWhole c w
      → IsWhole c (r.1)
  rotate_credentials-IsWhole id access secret_key w h whole =
      let s = rotate_credentials-IsRotated o f draw id access secret_key w h in
      let same = of_some_eq (sym configured ∙ s.configured) in
      subst (IsWhole c) (sym s.written) (
        subst
          (λ e. IsWhole c (record w {
            buckets = s.buckets;
            variables =
                rebind e draw 1 s.bucket s.keys (select (λ x. x.bucket_id == id) w.bindings)
                  w.variables;
          }))
          same
          (rotated-IsWhole s.buckets s.bucket s.keys (select (λ x. x.bucket_id == id) w.bindings) w
            whole))
