-- ===== src/Deployment/Workspaces/Tests.antt =====
-- The theorems on variables and buckets at concrete calls: two services, one referring to the other,
-- and a bucket.
use cloudrail.Common.{List, [], arith, none, refl, some, true, ℕ, ◌∷◌, ◌≡◌, ◌≤◌}
use cloudrail.Common.Table.{count, delete, exists, find}
use cloudrail.Common.Table.Writes.{upsert}
use cloudrail.Common.Text.{
  Text, bytes, equals, is_alphanumeric, is_digit, is_lower, is_space, is_upper, to_upper, trim,
  trim_left,
}
use cloudrail.Deployment.Buckets.{
  Credentials, Formats, bind_bucket, binding_of, bound, check_prefix, may_bind, open_credentials,
  prefix_byte, unbind_bucket, upper_prefix, valid_prefix,
}
use cloudrail.Deployment.Buckets.Dangling.{unbind_bucket-dangling}
use cloudrail.Deployment.Buckets.Undoing.{bind_bucket-unbind_bucket}
use cloudrail.Deployment.Model.{Service, is_data_kind}
use cloudrail.Deployment.Outside.{Env, hex_digits, id_text}
use cloudrail.Deployment.Settings.{normalize}
use cloudrail.Deployment.Variables.{
  Binding, Bucket, Reference, Variable, VariableKind, Workspace, bucket_managed, check_own,
  put_variable, reference_at, resolve_fuel, resolve_variable, set_variable, valid_variable_name,
  variable_at, variable_byte, variable_scope, variables,
}
use cloudrail.Deployment.Variables.Reading.{set_variable-resolve_variable}
use cloudrail.Deployment.Variables.Resolving.{resolve_variable-ends}
use cloudrail.Deployment.Workspaces.{
  WorkspaceCall, assign, connect, refer, remove, rename, run_calls, run_calls-readable,
}
use cloudrail.Deployment.Workspaces.Bounds.{of_service_id}
use cloudrail.Deployment.Workspaces.Removing.{run_calls-bounded}
use cloudrail.Result.{err, no_rows, ok, out_of_fuel}
use cloudrail.Secrets.{open_sealed, seal}
use cloudrail.Tests.{clear_aead, outside, service_one, store}

abbrev service_two : Service
service_two = record service_one { id = 2; name = bytes "b" }

abbrev bucket_one : Bucket
bucket_one = record {
  id = 7;
  project = 1;
  environment = bytes "production";
  name = bytes "files";
  endpoint = bytes "http://s3";
  region = [];
  bucket_name = bytes "files";
  force_path_style = true;
  credential_version = 1;
  credentials = bytes "x";
}

abbrev blank : Workspace
blank = record {
  main = record store { services = service_one ∷ service_two ∷ [] };
  variables = [];
  references = [];
  buckets = bucket_one ∷ [];
  bindings = [];
}

abbrev keys : Credentials
keys = record { access_key = bytes "key"; secret_key = bytes "12345678" }

abbrev formats : Formats
formats = record {
  parse_url = λ t. none;
  marshal_credentials = λ k. k.secret_key;
  unmarshal_credentials = λ t. some keys;
}

abbrev nonces : ℕ → ℕ → Text
nonces n m = 120 ∷ []

abbrev some_calls : List WorkspaceCall
some_calls =
    assign 2 (bytes "PORT") (bytes "80") VariableKind.plain
    ∷ refer 1 (bytes "URL") 2 (bytes "PORT")
    ∷ refer 2 (bytes "BACK") 1 (bytes "URL")
    ∷ rename 2 (bytes "PORT") (bytes "ADDRESS")
    ∷ remove 2 (bytes "ADDRESS")
    ∷ connect 7 2 (bytes "files")
    ∷ []

run_calls-readable_example :
    (env : Env) × (variables outside (run_calls outside formats nonces 0 some_calls blank) 1
      ≡ ok env)
run_calls-readable_example =
    run_calls-readable outside formats clear_aead refl (λ n v s. refl) nonces (λ n m. refl)
      some_calls blank 1 refl refl

run_calls-bounded_example :
    (count (of_service_id 2) (run_calls outside formats nonces 0 some_calls blank).variables ≤ 64)
    × (count
          (variable_at 2 (bytes "PORT"))
          (run_calls outside formats nonces 0 some_calls blank).variables
        ≤ 1)
run_calls-bounded_example =
    run_calls-bounded outside formats nonces some_calls blank 2 (bytes "PORT") refl refl

resolve_variable-ends_example :
    ¬ (resolve_variable outside blank (resolve_fuel blank) [] 1 (bytes "URL") ≡ err out_of_fuel)
resolve_variable-ends_example = resolve_variable-ends outside blank 1 (bytes "URL")

abbrev with_port : Workspace
with_port = record blank {
  variables =
      record {
        service_id = 2;
        name = bytes "PORT";
        ciphertext = bytes "x80";
        kind = VariableKind.plain;
      }
      ∷ [];
}

set_accepted :
    set_variable outside (bytes "x") 2 (bytes "PORT") (bytes "80") VariableKind.plain blank
    ≡ ok with_port
unfolding set_variable check_own find valid_variable_name variable_byte is_alphanumeric is_upper
    is_lower is_digit bucket_managed exists count put_variable upsert variable_scope seal delete
    normalize is_data_kind equals id_text hex_digits
set_accepted = refl

set_variable-resolve_variable_example :
    resolve_variable outside with_port (resolve_fuel with_port) [] 2 (bytes "PORT")
    ≡ ok (bytes "80")
set_variable-resolve_variable_example =
    set_variable-resolve_variable outside clear_aead (bytes "x") 2 (bytes "PORT") (bytes "80")
      VariableKind.plain blank refl (λ n v s. refl) refl set_accepted

abbrev bound_store : Workspace
bound_store = bound clear_aead (nonces 0) bucket_one 2 (bytes "FILES") keys with_port

bind_accepted :
    bind_bucket outside formats (nonces 0) 7 2 (bytes " files") with_port ≡ ok bound_store
unfolding bind_bucket upper_prefix to_upper trim trim_left is_space valid_prefix prefix_byte
    is_upper is_digit find exists may_bind equals check_prefix count open_credentials open_sealed
bind_accepted = refl

bind_bucket-unbind_bucket_example : unbind_bucket 7 2 bound_store ≡ ok with_port
unfolding exists
bind_bucket-unbind_bucket_example =
    bind_bucket-unbind_bucket outside formats (nonces 0) 7 2 (bytes " files") with_port refl
      bind_accepted

abbrev binding_one : Binding
binding_one = record { bucket_id = 7; service_id = 2; prefix = bytes "FILES" }

abbrev reference_one : Reference
reference_one = record {
  source = 1;
  variable_name = bytes "NAME";
  target = 2;
  target_variable = bytes "FILES_BUCKET";
}

abbrev variable_one : Variable
variable_one = record {
  service_id = 1;
  name = bytes "NAME";
  ciphertext = bytes "x";
  kind = VariableKind.reference;
}

abbrev referring : Workspace
referring = record blank {
  variables =
      record {
        service_id = 2;
        name = bytes "FILES_BUCKET";
        ciphertext = bytes "xfiles";
        kind = VariableKind.secret;
      }
      ∷ variable_one
      ∷ [];
  references = reference_one ∷ [];
  bindings = binding_one ∷ [];
}

abbrev unbound : Workspace
unbound = record referring { variables = variable_one ∷ []; bindings = [] }

unbind_accepted : unbind_bucket 7 2 referring ≡ ok unbound
unfolding unbind_bucket find delete equals
unbind_accepted = refl

row_found : find (binding_of 7 2) referring.bindings ≡ some binding_one
unfolding find
row_found = refl

variable_found : find (variable_at 1 (bytes "NAME")) referring.variables ≡ some variable_one
unfolding find equals
variable_found = refl

variable_opened : open_sealed clear_aead (bytes "x") (variable_scope 1 (bytes "NAME")) ≡ ok []
unfolding open_sealed
variable_opened = refl

reference_found : find (reference_at 1 (bytes "NAME")) referring.references ≡ some reference_one
unfolding find equals
reference_found = refl

apart : ¬ (◌≡◌ {A = ℕ} 1 2)
apart h = omega arith

unbind_bucket-dangling_example :
    resolve_variable outside unbound 3 [] 1 (bytes "NAME") ≡ err no_rows
unfolding equals
unbind_bucket-dangling_example =
    unbind_bucket-dangling outside clear_aead 1 7 2 referring binding_one 1 (bytes "NAME")
      variable_one reference_one refl unbind_accepted row_found variable_found refl variable_opened
      reference_found refl refl apart
