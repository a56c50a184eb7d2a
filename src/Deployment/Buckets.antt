-- ===== src/Deployment/Buckets.antt =====
-- deployment/buckets.go: S3 buckets, and the variables by which a bucket is bound to a service.
-- url.Parse and the JSON of the credentials are parameters. Texts are of ASCII bytes where the code
-- trims them or makes them upper case. The two times of a bucket are left out.
pub mod Keeping
pub mod Undoing
pub mod Dangling
mod Specs
use cloudrail.Common.{
  Bool, List, Option, [], all, any, drop, false, if◌then◌else◌, leb, length, ltb, map, none, not,
  some, suc, take, ℕ, ◌&&◌, ◌++◌, ◌+◌, ◌-◌, ◌==◌, ◌||◌, ◌∷◌,
}
use cloudrail.Common.Table.{count, delete, exists, find, select, update}
use cloudrail.Common.Table.Writes.{upsert}
use cloudrail.Common.Text.{
  Text, bytes, equals, is_alphanumeric, is_digit, is_empty, is_space, is_upper, to_upper, trim,
  trim_right,
}
use cloudrail.Deployment.Model.{Service}
use cloudrail.Deployment.Outside.{Env, Outside, id_text}
use cloudrail.Deployment.Settings.{is_http}
use cloudrail.Deployment.Spec.{valid_name}
use cloudrail.Deployment.Variables.{
  Binding, Bucket, Variable, Workspace, managed_suffixes, secret, variable_at, variable_scope,
  variables,
}
use cloudrail.Result.{
  Result, check_violation, decrypt_failed, different_scope, duplicate_key, endpoint_too_long,
  invalid_bucket, invalid_credentials, invalid_endpoint, invalid_prefix, names_taken, no_cipher,
  no_rows, ok, or_else, prefix_fixed, prefix_taken, refuse, require, too_many_variables, ◌>>=◌,
  ◌>>◌,
}
use cloudrail.Secrets.{Aead, open_sealed, seal}
unfoldable pub use Specs.*

-- "bucket:"+id+":credentials"
unfoldable pub bucket_scope : ℕ → Text
bucket_scope id = bytes "bucket:" ++ id_text id ++ bytes ":credentials"

abbrev pub bucket_by_id : ℕ → Bucket → Bool
bucket_by_id id b = b.id == id

-- UNIQUE(project_id,environment,name)
abbrev pub bucket_named : ℕ → Text → Text → Bucket → Bool
bucket_named project environment name b =
    b.project == project && equals b.environment environment && equals b.name name

abbrev pub keys_of : BucketSpec → Credentials
keys_of s = record { access_key = s.access_key; secret_key = s.secret_key }

unfoldable pub new_bucket : ℕ → ℕ → Text → BucketSpec → Bucket
new_bucket fresh project sealed s = record {
  id = fresh;
  project = project;
  environment = s.environment;
  name = s.name;
  endpoint = s.endpoint;
  region = s.region;
  bucket_name = s.bucket_name;
  force_path_style = s.force_path_style;
  credential_version = 1;
  credentials = sealed;
}

-- CreateBucket; that the environment exists is a foreign key, which stands as a flag, and the table checks the
-- length of the endpoint
unfoldable pub create_bucket :
    Outside → Formats → ℕ → Text → Bool → ℕ → BucketSpec → Workspace → Result (Bucket × Workspace)
create_bucket o f fresh nonce known project given w = do
  s ← validate_bucket f given
  cipher ← or_else o.cipher no_cipher
  require (known && leb 8 (length s.endpoint)) check_violation
  refuse
      (exists (bucket_by_id fresh) w.buckets
        || exists (bucket_named project s.environment s.name) w.buckets)
      duplicate_key
  let b : Bucket =
      new_bucket fresh project
        (seal cipher nonce (f.marshal_credentials (keys_of s)) (bucket_scope fresh)) s
  ok (b, record w { buckets = w.buckets ++ b ∷ [] })

-- bucketVariables; the map that it returns has no order
unfoldable pub bucket_variables : Text → Bucket → Credentials → Env
bucket_variables prefix b k =
    (prefix ++ bytes "_BUCKET", b.bucket_name)
    ∷ (prefix ++ bytes "_ENDPOINT", b.endpoint)
    ∷ (prefix ++ bytes "_REGION", b.region)
    ∷ (prefix ++ bytes "_ACCESS_KEY_ID", k.access_key)
    ∷ (prefix ++ bytes "_SECRET_ACCESS_KEY", k.secret_key)
    ∷ (
      prefix ++ bytes "_FORCE_PATH_STYLE",
      if b.force_path_style then bytes "true" else bytes "false",
    )
    ∷ []

-- openBucketCredentials
unfoldable pub open_credentials : Outside → Formats → Bucket → Result Credentials
open_credentials o f b = do
  cipher ← or_else o.cipher no_cipher
  opened ← open_sealed cipher b.credentials (bucket_scope b.id)
  or_else (f.unmarshal_credentials opened) decrypt_failed

abbrev pub resealed : Text → Variable → Variable
resealed ciphertext v = record v { ciphertext = ciphertext }

-- the upsert of a bound variable; the column's default kind is `secret`
unfoldable pub put_bound : ℕ → Text → Text → List Variable → List Variable
put_bound id name ciphertext vs =
    upsert (variable_at id name) (resealed ciphertext)
      (record { service_id = id; name = name; ciphertext = ciphertext; kind = secret }) vs

-- bindBucketVariables, on the entries of the map; `draw` is what rand.Read returned, in turn
unfoldable pub bind_entries : Aead → (ℕ → Text) → ℕ → ℕ → Env → List Variable → List Variable
bind_entries c draw n id [] vs = vs
bind_entries c draw n id (e ∷ rest) vs =
    bind_entries c draw (suc n) id rest
      (put_bound id (e.0) (seal c (draw n) (e.1) (variable_scope id (e.0))) vs)

-- service and prefix of a variable that a binding manages
abbrev pub bound_name : ℕ → Text → Variable → Bool
bound_name id prefix v =
    v.service_id == id && any (λ suffix. equals v.name (prefix ++ suffix)) managed_suffixes

abbrev pub binding_of : ℕ → ℕ → Binding → Bool
binding_of bucket service b = b.bucket_id == bucket && b.service_id == service

abbrev pub binding_under : ℕ → Text → Binding → Bool
binding_under service prefix b = b.service_id == service && equals b.prefix prefix

-- an application in the bucket's project and environment
unfoldable pub may_bind : Bucket → ℕ → Service → Bool
may_bind b id s =
    s.id == id
    && s.project == b.project
    && equals (bytes s.environment) b.environment
    && is_http s.settings.kind

-- a bucket that is bound to the service already, under its prefix
abbrev pub keeps_prefix : Text → Option Binding → Result (Unit {0})
keeps_prefix prefix none = ok tt
keeps_prefix prefix (some b) = require (equals b.prefix prefix) prefix_fixed

-- a prefix that the service uses already, for the bucket
abbrev pub keeps_bucket : ℕ → Option Binding → Result (Unit {0})
keeps_bucket id none = ok tt
keeps_bucket id (some b) = require (b.bucket_id == id) prefix_taken

-- the rows that are already there
unfoldable pub check_prefix : ℕ → ℕ → Text → Workspace → Result (Unit {0})
check_prefix id service prefix w = do
  keeps_prefix prefix (find (binding_of id service) w.bindings)
  keeps_bucket id (find (binding_under service prefix) w.bindings)
  if exists (binding_of id service) w.bindings then ok tt else do
    require (count (bound_name service prefix) w.variables == 0) names_taken
    refuse (ltb 64 (count (λ v. v.service_id == service) w.variables + 6)) too_many_variables

abbrev pub prefixed : Text → Binding → Binding
prefixed prefix b = record b { prefix = prefix }

-- what BindBucket writes
unfoldable pub bound : Aead → (ℕ → Text) → Bucket → ℕ → Text → Credentials → Workspace → Workspace
bound c draw b service prefix k w = record w {
  variables = bind_entries c draw 0 service (bucket_variables prefix b k) w.variables;
  bindings =
      upsert (binding_of b.id service) (prefixed prefix)
        (record { bucket_id = b.id; service_id = service; prefix = prefix }) w.bindings;
}

-- strings.ToUpper(strings.TrimSpace(prefix))
unfoldable pub upper_prefix : Text → Text
unfolding to_upper
upper_prefix given = map to_upper (trim is_space given)

-- BindBucket
unfoldable pub bind_bucket :
    Outside → Formats → (ℕ → Text) → ℕ → ℕ → Text → Workspace → Result Workspace
unfolding upper_prefix
bind_bucket o f draw id service given w =
    let prefix = upper_prefix given in
    do
      require (valid_prefix prefix) invalid_prefix
      b ← or_else (find (bucket_by_id id) w.buckets) no_rows
      require (exists (may_bind b service) w.main.services) different_scope
      check_prefix id service prefix w
      k ← open_credentials o f b
      cipher ← or_else o.cipher no_cipher
      ok (bound cipher draw b service prefix k w)

-- the loop over the bindings of a bucket
unfoldable pub rebind :
    Aead → (ℕ → Text) → ℕ → Bucket → Credentials → List Binding → List Variable → List Variable
unfolding bind_entries
rebind c draw n b k [] vs = vs
rebind c draw n b k (x ∷ xs) vs =
    rebind c draw (n + 6) b k xs
      (bind_entries c draw n x.service_id (bucket_variables x.prefix b k) vs)

abbrev pub rotated : Text → Bucket → Bucket
rotated sealed b = record b { credentials = sealed; credential_version = suc b.credential_version }

-- RotateBucketCredentials
unfoldable pub rotate_credentials :
    Outside → Formats → (ℕ → Text) → ℕ → Text → Text → Workspace → Result (Bucket × Workspace)
rotate_credentials o f draw id access secret_key w =
    let k : Credentials = record { access_key = trim is_space access; secret_key = secret_key } in
    do
      validate_credentials (trim is_space access) secret_key
      cipher ← or_else o.cipher no_cipher
      b ← or_else (find (bucket_by_id id) w.buckets) no_rows
      let sealed = seal cipher (draw 0) (f.marshal_credentials k) (bucket_scope id)
      ok (
        rotated sealed b,
        record w {
          buckets = update (bucket_by_id id) (rotated sealed) w.buckets;
          variables =
              rebind cipher draw 1 b k (select (λ x. x.bucket_id == id) w.bindings) w.variables;
        },
      )

-- UnbindBucket
unfoldable pub unbind_bucket : ℕ → ℕ → Workspace → Result Workspace
unbind_bucket id service w = do
  b ← or_else (find (binding_of id service) w.bindings) no_rows
  ok (record w {
    bindings = delete (binding_of id service) w.bindings;
    variables = delete (bound_name service b.prefix) w.variables;
  })
