-- ===== src/Deployment/Databases/Binding/Tests.antt =====
-- Binding a database of PostgreSQL to an application.
use cloudrail.Common.{Option, [], none, refl, ◌∷◌, ◌≡◌}
use cloudrail.Common.Table.{count, delete, exists, find, select, update}
use cloudrail.Common.Table.Writes.{upsert}
use cloudrail.Common.Text.{Text, bytes, equals, is_alphanumeric, is_digit, is_lower, is_upper}
use cloudrail.Deployment.Databases.{database_host}
use cloudrail.Deployment.Databases.Binding.{
  beside, bind_database, check_binding, connected, connection, postgres_url,
}
use cloudrail.Deployment.Databases.Binding.Laws.{bind_database-resolve_variable}
use cloudrail.Deployment.Model.{Kind, ResourceKind, Service, is_data_kind}
use cloudrail.Deployment.Outside.{hex_digits, id_text}
use cloudrail.Deployment.Settings.{normalize}
use cloudrail.Deployment.Variables.{
  Workspace, bucket_managed, check_own, collect, put_variable, resolve_variable, secret,
  set_variable, valid_variable_name, variable_byte, variables, variable_at,
}
use cloudrail.Deployment.Volumes.{Names}
use cloudrail.Result.{Error, ok}
use cloudrail.Secrets.{open_sealed, seal}
use cloudrail.Tests.{clear_aead, outside, service_one, store}

abbrev names : Names
names = record { network = λ p e. bytes "net"; volume_id = λ s. s }

abbrev database_row : Service
database_row = record service_one {
  id = 5;
  settings = record service_one.settings { kind = Kind.postgres };
  resource_kind = ResourceKind.database;
  template_key = "postgres";
}

abbrev workspace : Workspace
workspace = record {
  main = record store { services = service_one ∷ database_row ∷ [] };
  variables =
      record {
        service_id = 5;
        name = bytes "POSTGRES_PASSWORD";
        ciphertext = 0 ∷ bytes "secret";
        kind = secret;
      }
      ∷ [];
  references = [];
  buckets = [];
  bindings = [];
}

abbrev url : Text
url = postgres_url (database_host 5) (bytes "secret")

url_found : connection outside 5 (connected names 1 workspace) ≡ ok (url, bytes "DATABASE_URL")
unfolding connection connected variables collect resolve_variable select find equals open_sealed
    database_host update id_text hex_digits
url_found = refl

missing : find (variable_at 5 (bytes "DATABASE_URL")) workspace.variables ≡ none
unfolding find equals
missing = refl

abbrev outcome : Option Error × Workspace
outcome = bind_database outside names (9 ∷ []) 5 1 (bytes "DB") workspace

bind_accepted : bind_database outside names (9 ∷ []) 5 1 (bytes "DB") workspace ≡ (none, outcome.1)
unfolding bind_database check_binding beside connection connected variables collect resolve_variable
    select find equals open_sealed database_host update id_text hex_digits set_variable check_own
    valid_variable_name variable_byte bucket_managed count exists seal put_variable upsert delete
    normalize is_data_kind is_alphanumeric is_digit is_lower is_upper
bind_accepted = refl

bind_database-resolve_variable_example :
    resolve_variable outside outcome.1 2 [] 1 (bytes "DB") ≡ ok url
bind_database-resolve_variable_example =
    bind_database-resolve_variable outside clear_aead names (9 ∷ []) 5 1 (bytes "DB") workspace 0
      url (bytes "DATABASE_URL") refl (λ n v s. refl) refl (λ e. cc) url_found missing bind_accepted
