-- ===== src/Deployment/Databases.antt =====
-- deployment/operations.go and templates.go: creating a data service with its volume, its variables
-- and its first deployment, in one transaction. Without a cipher, which the code does not test here,
-- the call fails.
pub mod Binding
pub mod Laws
mod Tests
use text.Mathlib.Text.{◌==◌ as str_eq}
use cloudrail.Common.Int.{pos}
use cloudrail.Common.{
  List, String, [], false, if◌then◌else◌, none, some, suc, true, ℕ, ◌++◌, ◌==◌, ◌||◌, ◌∷◌,
}
use cloudrail.Common.Table.{exists}
use cloudrail.Common.Text.{Text, bytes}
use cloudrail.Deployment.Creation.{HostName, environment_at, has_host, service_named}
use cloudrail.Deployment.Enqueue.{Request, enqueue}
use cloudrail.Deployment.Model.{
  DesiredState, Kind, ResourceKind, RestartPolicy, Service, Settings, Volume, Workload, mongo,
  mysql, postgres, redis,
}
use cloudrail.Deployment.Outside.{Env, Outside, id_text}
use cloudrail.Deployment.Settings.{private_hostname}
use cloudrail.Deployment.Templates.{Template, data_template}
use cloudrail.Deployment.Variables.{variables}
use cloudrail.Deployment.Variables.{Variable, Workspace, secret, variable_scope}
use cloudrail.Deployment.Volumes.{
  Names, attached_to, of_volume, runtime_name, same_place, service_with, volume_by_id,
}
use cloudrail.Result.{
  Result, check_violation, duplicate_key, no_cipher, ok, or_else, refuse, require, ◌>>=◌, ◌>>◌,
}
use cloudrail.Secrets.{Aead, seal}

-- the store's rows, the environments, and the host names of the services
pub record Site : Type 0 where
  pub workspace : Workspace
  pub environments : List (ℕ × String)
  pub hosts : List HostName

-- what is random: identifiers, nonces, and the two passwords, each the text of two identifiers
pub record DatabaseDraws : Type 0 where
  pub now : ℕ
  pub service : ℕ
  pub deployment : ℕ
  pub nonce : ℕ → Text
  pub password : Text
  pub root_password : Text

-- "db-"+serviceID
unfoldable pub database_host : ℕ → Text
database_host id = bytes "db-" ++ id_text id

abbrev redis_url : Text → Text → Text
redis_url password host =
    bytes "redis://default:" ++ password ++ bytes "@" ++ host ++ bytes ":6379/0"

abbrev mysql_url : Text → Text → Text
mysql_url password host = bytes "mysql://app:" ++ password ++ bytes "@" ++ host ++ bytes ":3306/app"

abbrev mongo_url : Text → Text → Text
mongo_url password host =
    bytes "mongodb://root:" ++ password ++ bytes "@" ++ host ++ bytes ":27017/app?authSource=admin"

-- dataTemplateDefinition.Variables; the map that it returns has no order
unfoldable pub template_variables : Kind → Text → Text → Text → Env
template_variables Kind.postgres host password root =
    (bytes "POSTGRES_USER", bytes "app")
    ∷ (bytes "POSTGRES_DB", bytes "app")
    ∷ (bytes "POSTGRES_PASSWORD", password)
    ∷ []
template_variables Kind.redis host password root =
    (bytes "REDISHOST", host)
    ∷ (bytes "REDISUSER", bytes "default")
    ∷ (bytes "REDISPORT", bytes "6379")
    ∷ (bytes "REDIS_PASSWORD", password)
    ∷ (bytes "REDIS_URL", redis_url password host)
    ∷ []
template_variables Kind.mysql host password root =
    (bytes "MYSQL_ROOT_PASSWORD", root)
    ∷ (bytes "MYSQL_DATABASE", bytes "app")
    ∷ (bytes "MYSQL_USER", bytes "app")
    ∷ (bytes "MYSQL_PASSWORD", password)
    ∷ (bytes "MYSQL_URL", mysql_url password host)
    ∷ []
template_variables Kind.mongo host password root =
    (bytes "MONGO_INITDB_ROOT_USERNAME", bytes "root")
    ∷ (bytes "MONGO_INITDB_ROOT_PASSWORD", password)
    ∷ (bytes "MONGO_INITDB_DATABASE", bytes "app")
    ∷ (bytes "MONGO_URL", mongo_url password host)
    ∷ []
template_variables _ host password root = []

abbrev pub or_text : String → String → String
or_text s default = if str_eq s "" then default else s

-- the settings of a data service
unfoldable pub database_settings : Template → Text → Text → Text → Settings
database_settings t volume network host = record {
  kind = t.kind;
  memory_mb = pos t.memory_mb;
  cpu_millis = pos 1000;
  mount_path = t.mount_path;
  volume_name = volume;
  network = network;
  start_command = t.start_command;
  pre_deploy_command = [];
  pre_deploy_timeout_seconds = pos 0;
  restart_policy = RestartPolicy.always;
  restart_max_retries = pos 0;
  private_host = host;
  public_enabled = some false;
  target_port = pos t.port;
}

-- the row of CreateDatabase
unfoldable pub new_database : Names → ℕ → ℕ → Text → String → Template → Service
unfolding database_settings
new_database names fresh project name environment t = record {
  id = fresh;
  project = project;
  environment = environment;
  name = name;
  active_id = none;
  desired_state = DesiredState.running;
  settings =
      database_settings t (runtime_name fresh) (names.network project environment)
        (private_hostname name (id_text fresh));
  resource_kind = ResourceKind.database;
  workload = Workload.web;
  template_key = t.key;
  template_version = t.version;
  cron_schedule = [];
  cron_next_run = none;
}

-- the volume, which the template manages
unfoldable pub database_volume : Names → Service → Volume
database_volume names s = record {
  id = names.volume_id s.id;
  project = s.project;
  environment = s.environment;
  name = s.name ++ bytes " data";
  runtime_name = s.settings.volume_name;
  managed_by_template = true;
}

-- the rows of the variables, of the kind that is the column's default
unfoldable pub sealed_rows : Aead → (ℕ → Text) → ℕ → ℕ → Env → List Variable
sealed_rows c draw n id [] = []
sealed_rows c draw n id (e ∷ rest) =
    record {
      service_id = id;
      name = e.0;
      ciphertext = seal c (draw n) (e.1) (variable_scope id (e.0));
      kind = secret;
    }
    ∷ sealed_rows c draw (suc n) id rest

-- the rows of the service, its volume and its variables
unfoldable pub write_database : Names → Aead → DatabaseDraws → Service → Workspace → Workspace
unfolding template_variables database_host database_volume sealed_rows
write_database names c d s w =
    let v = database_volume names s in
    let env = template_variables s.settings.kind (database_host s.id) d.password d.root_password in
    record w {
      main = record w.main {
        services = w.main.services ++ s ∷ [];
        volumes = w.main.volumes ++ v ∷ [];
        attachments =
            w.main.attachments
            ++ record { volume_id = v.id; service_id = s.id; mount_path = s.settings.mount_path }
              ∷ [];
      };
      variables = w.variables ++ sealed_rows c d.nonce 1 s.id env;
    }

-- the keys of the tables
unfoldable pub check_database : Names → Service → Site → Result (Unit {0})
check_database names s site =
    let v = database_volume names s in
    do
      refuse
          (exists (service_with s.id) site.workspace.main.services
            || exists (service_named s.project s.environment s.name) site.workspace.main.services
            || exists (has_host (id_text s.id ++ bytes ".localhost")) site.hosts)
          duplicate_key
      require (exists (environment_at s.project s.environment) site.environments) check_violation
      refuse
          (exists (volume_by_id v.id) site.workspace.main.volumes
            || exists (same_place v.id s.project s.environment v.name) site.workspace.main.volumes
            || exists (of_volume v.id) site.workspace.main.attachments
            || exists (attached_to s.id) site.workspace.main.attachments
            || exists (λ x. x.service_id == s.id) site.workspace.variables)
          duplicate_key

-- the request of the first deployment
unfoldable pub bootstrap : Outside → DatabaseDraws → Template → ℕ → Workspace → Request
bootstrap o d t service w = record {
  service_id = service;
  spec = record { image = t.image; port = pos t.port; health_path = bytes "/" };
  start_command = none;
  key = bytes "database-bootstrap";
  fresh = d.deployment;
  nonce = d.nonce 0;
  variables = variables o w service;
}

-- CreateDatabase
unfoldable pub create_database :
    Outside → Names → DatabaseDraws → ℕ → Text → String → String → Site → Result (Service × Site)
create_database o names d project name environment key site = do
  t ← data_template (or_text key "postgres") ""
  let s = new_database names d.service project name (or_text environment "production") t
  check_database names s site
  c ← or_else o.cipher no_cipher
  let w = write_database names c d s site.workspace
  (row, main) ← enqueue o d.now (bootstrap o d t s.id w) w.main
  ok (
    s,
    record site {
      workspace = record w { main = main };
      hosts =
          site.hosts
          ++ record { service_id = s.id; host = id_text s.id ++ bytes ".localhost" } ∷ [];
    },
  )
