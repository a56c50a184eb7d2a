-- ===== src/Deployment/Databases/Binding.antt =====
-- deployment/operations.go: BindDatabase. It is no transaction: what was written before an error
-- stays.
pub mod Laws
mod Tests
use text.Mathlib.Text.{◌==◌ as str_eq}
use cloudrail.Common.{
  Bool, Option, String, [], false, if◌then◌else◌, none, some, true, ℕ, ◌&&◌, ◌++◌, ◌==◌, ◌∷◌,
}
use cloudrail.Common.Table.{exists, find, update}
use cloudrail.Common.Text.{Text, bytes, equals, is_empty}
use cloudrail.Deployment.Databases.{database_host}
use cloudrail.Deployment.Model.{Db, ResourceKind, Service}
use cloudrail.Deployment.Outside.{Env, Outside}
use cloudrail.Deployment.Settings.{is_http}
use cloudrail.Deployment.Variables.{
  Variable, Workspace, put_reference, reference, secret, set_variable, valid_variable_name,
  variable_at, variables,
}
use cloudrail.Deployment.Volumes.{Names, service_with}
use cloudrail.Result.{
  Error, Result, different_scope, err, invalid_variable_name, no_credentials, no_rows, ok, or_else,
  refuse, require, ◌>>=◌, ◌>>◌,
}

-- vars[name], '' where it is missing
abbrev pub value_of : Text → Env → Text
value_of name env = elim (find (λ e. equals (e.0) name) env) [ none ↦ [] | some e ↦ e.1 ]

abbrev postgres_url : Text → Text → Text
postgres_url host [] = []
postgres_url host (c ∷ password) =
    bytes "postgres://app:"
    ++ (c ∷ password)
    ++ bytes "@"
    ++ host
    ++ bytes ":5432/app?sslmode=disable"

-- the connection that a template makes, and the variable that the reference names
abbrev pub url_of : String → Text → Env → Text × Text
url_of key host env =
    if str_eq key "postgres"
    then (postgres_url host (value_of (bytes "POSTGRES_PASSWORD") env), bytes "DATABASE_URL")
    else if str_eq key "redis"
    then (value_of (bytes "REDIS_URL") env, bytes "REDIS_URL")
    else if str_eq key "mysql"
    then (value_of (bytes "MYSQL_URL") env, bytes "MYSQL_URL")
    else if str_eq key "mongo"
    then (value_of (bytes "MONGO_URL") env, bytes "MONGO_URL")
    else ([], [])

-- the connection to the database and the variable that the reference names, or the error
unfoldable pub connection : Outside → ℕ → Workspace → Result (Text × Text)
unfolding database_host
connection o database w = do
  d ← or_else (find (service_with database) w.main.services) no_rows
  env ← variables o w database
  let c = url_of d.template_key (database_host database) env
  refuse (is_empty (c.0)) no_credentials
  ok c

abbrev is_database : ResourceKind → Bool
is_database ResourceKind.database = true
is_database _ = false

-- an application and a data service of one project and environment
unfoldable pub beside : ℕ → ℕ → Db → Bool
beside database target db =
    exists
      (λ d.
        d.id == database
        && is_database d.resource_kind
        && exists
            (λ a.
              a.id == target
              && is_http a.settings.kind
              && d.project == a.project
              && str_eq d.environment a.environment)
            db.services)
      db.services

abbrev pub on_network : Text → Service → Service
on_network network s = record s { settings = record s.settings { network = network } }

-- the application's settings with the network of its environment
abbrev pub moved : Names → ℕ → Workspace → Option Service → Workspace
moved names target w none = w
moved names target w (some a) = record w {
  main = record w.main {
    services =
        update (service_with target) (on_network (names.network a.project a.environment))
          w.main.services;
  };
}

-- the application moves to the network of its environment
unfoldable pub connected : Names → ℕ → Workspace → Workspace
connected names target w = moved names target w (find (service_with target) w.main.services)

abbrev pub as_reference : Variable → Variable
as_reference v = record v { kind = reference }

-- the last two statements
unfoldable pub referred : ℕ → Text → ℕ → Text → Workspace → Workspace
referred target name database variable w = record w {
  references = put_reference target name database variable w.references;
  variables = update (variable_at target name) as_reference w.variables;
}

-- an error leaves what was written before it
abbrev pub kept {ℓ} :
    {A : Type ℓ} → Result A → Workspace → (A → Option Error × Workspace) → Option Error × Workspace
kept (err e) w next = (some e, w)
kept (ok x) w next = next x

unfoldable pub check_binding : ℕ → ℕ → Text → Workspace → Result (Unit {0})
unfolding beside
check_binding database target name w = do
  require (valid_variable_name name) invalid_variable_name
  require (beside database target w.main) different_scope

-- BindDatabase; the calls of the database that lose their connection are left out
unfoldable pub bind_database :
    Outside → Names → Text → ℕ → ℕ → Text → Workspace → Option Error × Workspace
bind_database o names nonce database target name w =
    kept (check_binding database target name w) w (λ _.
      let w = connected names target w in
      kept (connection o database w) w (λ c.
        kept (set_variable o nonce target name (c.0) secret w) w
          (λ q. (none, referred target name database (c.1) q))))
