-- ===== src/Deployment/Creation.antt =====
-- deployment/store.go and operations.go: projects, environments, applications and their host names.
-- What the environment variables APP_DOMAIN and DASHBOARD_DOMAIN hold is an argument.
pub mod Laws
pub mod Tests
use text.Mathlib.Text.{◌==◌ as str_eq}
use cloudrail.Common.Int.{pos}
use cloudrail.Common.{
  Bool, List, String, [], all, drop, false, if◌then◌else◌, leb, length, none, not, some, take, true,
  ℕ, ◌&&◌, ◌++◌, ◌-◌, ◌==◌, ◌||◌, ◌∷◌,
}
use cloudrail.Common.Table.{count, exists, update}
use cloudrail.Common.Text.{Text, bytes, equals, is_digit, is_empty, is_lower}
use cloudrail.Deployment.Model.{
  ComputeSpec, Db, DesiredState, Kind, ResourceKind, RestartPolicy, Service, Workload, http,
  on_failure,
}
use cloudrail.Deployment.Outside.{id_text}
use cloudrail.Deployment.Settings.{is_http, private_hostname}
use cloudrail.Deployment.Spec.{validate_compute}
use cloudrail.Deployment.Volumes.{Names, service_with}
use cloudrail.Result.{
  Result, check_violation, cron_schedule, duplicate_key, invalid_host, no_rows, ok, refuse, require,
  reserved_host, ◌>>=◌, ◌>>◌,
}

-- service_sources without a configuration
pub record Origin : Type 0 where
  pub service_id : ℕ
  pub source_type : String

-- the host name of a service, a column of its row
pub record HostName : Type 0 where
  pub service_id : ℕ
  pub host : Text

pub record Registry : Type 0 where
  pub main : Db
  pub projects : List (ℕ × Text)
  pub environments : List (ℕ × String)
  pub hosts : List HostName
  pub origins : List Origin

abbrev project_by_id : ℕ → ℕ × Text → Bool
project_by_id id p = p.0 == id

abbrev pub environment_at : ℕ → String → ℕ × String → Bool
environment_at project name e = e.0 == project && str_eq (e.1) name

-- CreateProject, with its first environment
unfoldable pub create_project : ℕ → Text → Registry → Result Registry
create_project fresh name r = do
  refuse (exists (project_by_id fresh) r.projects) duplicate_key
  refuse (exists (environment_at fresh "production") r.environments) duplicate_key
  ok (record r {
    projects = r.projects ++ (fresh, name) ∷ [];
    environments = r.environments ++ (fresh, "production") ∷ [];
  })

-- CreateEnvironment
unfoldable pub create_environment : ℕ → String → Registry → Result Registry
create_environment project name r = do
  refuse (exists (environment_at project name) r.environments) duplicate_key
  require (exists (project_by_id project) r.projects) check_violation
  ok (record r { environments = r.environments ++ (project, name) ∷ [] })

abbrev pub is_public : Workload → Bool
is_public Workload.web = true
is_public _ = false

-- the row of CreateCompute
unfoldable pub new_service : Names → ℕ → ℕ → ComputeSpec → Service
new_service names fresh project spec = record {
  id = fresh;
  project = project;
  environment = spec.environment;
  name = spec.name;
  active_id = none;
  desired_state = DesiredState.running;
  settings = record {
    kind = Kind.http;
    memory_mb = pos 256;
    cpu_millis = pos 1000;
    mount_path = [];
    volume_name = [];
    network = names.network project spec.environment;
    start_command = [];
    pre_deploy_command = [];
    pre_deploy_timeout_seconds = pos 0;
    restart_policy = RestartPolicy.on_failure;
    restart_max_retries = pos 10;
    private_host = private_hostname spec.name (id_text fresh);
    public_enabled = some (is_public spec.workload);
    target_port = pos 80;
  };
  resource_kind = ResourceKind.service;
  workload = spec.workload;
  template_key = "";
  template_version = "";
  cron_schedule = [];
  cron_next_run = none;
}

-- v.ID + "." + domain
unfoldable pub new_host : ℕ → Text → Text
new_host fresh domain =
    id_text fresh ++ bytes "." ++ (if is_empty domain then bytes "localhost" else domain)

abbrev pub service_named : ℕ → String → Text → Service → Bool
service_named project environment name s =
    s.project == project && str_eq s.environment environment && equals s.name name

abbrev pub has_host : Text → HostName → Bool
has_host host h = equals h.host host

-- CreateCompute; CreateService is the workload `web` with the source type `empty`
unfoldable pub create_compute :
    Names → ℕ → Text → ℕ → ComputeSpec → Registry → Result (Service × Registry)
unfolding new_service new_host
create_compute names fresh domain project spec r = do
  validate_compute spec
  refuse
      (exists (service_with fresh) r.main.services
        || exists (service_named project spec.environment spec.name) r.main.services
        || exists (has_host (new_host fresh domain)) r.hosts)
      duplicate_key
  require (exists (environment_at project spec.environment) r.environments) check_violation
  let s = new_service names fresh project spec
  ok (
    s,
    record r {
      main = record r.main { services = r.main.services ++ s ∷ [] };
      hosts = r.hosts ++ record { service_id = fresh; host = new_host fresh domain } ∷ [];
      origins = r.origins ++ record { service_id = fresh; source_type = spec.source_type } ∷ [];
    },
  )

-- [a-z0-9]
unfoldable pub edge_byte : ℕ → Bool
unfolding is_lower is_digit
edge_byte c = is_lower c || is_digit c

-- [a-z0-9](?:[a-z0-9-]{0,61}[a-z0-9])?
unfoldable pub valid_label : Text → Bool
unfolding edge_byte
valid_label s =
    leb 1 (length s)
    && leb (length s) 63
    && all (λ c. edge_byte c || c == b'-') s
    && all edge_byte (take 1 s)
    && all edge_byte (drop (length s - 1) s)

-- the labels of a host name: what stands between the dots
unfoldable pub labels_from : Text → Text → List Text
labels_from label [] = label ∷ []
labels_from label (c ∷ s) =
    let next = label ∷ labels_from [] s in
    let longer = labels_from (label ++ c ∷ []) s in if c == b'.' then next else longer

-- ValidDomain
unfoldable pub valid_domain : Text → Bool
unfolding labels_from valid_label
valid_domain host =
    leb (length host) 253
    && leb 2 (length (labels_from [] host))
    && all valid_label (labels_from [] host)

abbrev host_of : ℕ → HostName → Bool
host_of id h = h.service_id == id

abbrev other_host : ℕ → Text → HostName → Bool
other_host id host h = not (h.service_id == id) && equals h.host host

abbrev with_host : Text → HostName → HostName
with_host host h = record h { host = host }

-- SetDomain; `dashboard` is the host name of the dashboard
unfoldable pub set_domain : Text → ℕ → Text → Registry → Result Registry
unfolding equals
set_domain dashboard id host r = do
  require (valid_domain host) invalid_host
  refuse (equals host dashboard) reserved_host
  require (count (λ s. s.id == id && is_http s.settings.kind) r.main.services == 1) no_rows
  refuse (exists (other_host id host) r.hosts) duplicate_key
  ok (record r { hosts = update (host_of id) (with_host host) r.hosts })
