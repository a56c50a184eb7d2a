-- ===== src/Deployment/Volumes.antt =====
-- deployment/volumes.go and operations.go: volumes, attaching them, and the resources of a service.
pub mod Laws
pub mod Tests
use text.Mathlib.Text.{◌==◌ as str_eq}
use cloudrail.Deployment.Settings
use cloudrail.Common.{
  Bool, List, String, [], false, if◌then◌else◌, is_some, not, true, ℕ, ◌&&◌, ◌++◌, ◌==◌, ◌||◌, ◌∷◌,
}
use cloudrail.Common.Int.{ℤ}
use cloudrail.Common.Table.{delete, exists, find, update}
use cloudrail.Common.Text.{Text, bytes, equals, is_empty}
use cloudrail.Deployment.Actions.{is_running, unfinished}
use cloudrail.Deployment.Enqueue.{with_settings}
use cloudrail.Deployment.Model.{Attachment, Db, ResourceKind, Service, Settings, Volume}
use cloudrail.Deployment.Outside.{id_text}
use cloudrail.Deployment.Spec.{valid_name}
use cloudrail.Result.{
  Result, already_attached, check_violation, different_scope, duplicate_key, has_volume,
  invalid_name, managed_volume, no_rows, not_stopped, ok, or_else, refuse, require, unfinished_work,
  volume_fixed, ◌>>=◌, ◌>>◌,
}

abbrev pub volume_by_id : ℕ → Volume → Bool
volume_by_id id v = v.id == id

abbrev pub of_volume : ℕ → Attachment → Bool
of_volume id a = a.volume_id == id

abbrev pub attached_to : ℕ → Attachment → Bool
attached_to service a = a.service_id == service

-- UNIQUE(project_id,environment,name), on another row
abbrev pub same_place : ℕ → ℕ → String → Text → Volume → Bool
same_place id project environment name v =
    not (v.id == id)
    && v.project == project
    && str_eq v.environment environment
    && equals v.name name

unfoldable pub runtime_name : ℕ → Text
runtime_name id = bytes "cloudrail-volume-" ++ id_text id

unfoldable pub new_volume : ℕ → ℕ → String → Text → Volume
new_volume fresh project environment name = record {
  id = fresh;
  project = project;
  environment = environment;
  name = name;
  runtime_name = runtime_name fresh;
  managed_by_template = false;
}

-- CreateVolume; that the environment exists is a foreign key, which stands as a flag
unfoldable pub create_volume : ℕ → Bool → ℕ → String → Text → Db → Result (Volume × Db)
create_volume fresh known project environment name db = do
  let place = if str_eq environment "" then "production" else environment
  require (valid_name name) invalid_name
  require known check_violation
  refuse
      (exists (volume_by_id fresh) db.volumes
        || exists (same_place fresh project place name) db.volumes)
      duplicate_key
  let v = new_volume fresh project place name
  ok (v, record db { volumes = db.volumes ++ v ∷ [] })

abbrev is_service : ResourceKind → Bool
is_service ResourceKind.service = true
is_service ResourceKind.database = false

-- an application in the volume's project and environment
unfoldable pub may_hold : Volume → Service → Bool
may_hold v s =
    v.project == s.project
    && str_eq v.environment s.environment
    && is_service s.resource_kind
    && str_eq s.template_key ""

-- active != "" && desired != "stopped"
unfoldable pub serves : Service → Bool
serves s = is_some s.active_id && is_running s.desired_state

abbrev pub service_with : ℕ → Service → Bool
service_with id s = s.id == id

-- the checks on the application
unfoldable pub check_holder : Volume → Service → Db → Result (Unit {0})
check_holder v s db = do
  require (may_hold v s) different_scope
  refuse (serves s) not_stopped
  refuse (exists (attached_to s.id) db.attachments) has_volume
  refuse (unfinished s.id db) unfinished_work

abbrev pub mounted : Text → Text → Settings → Settings
mounted mount name c = record c { mount_path = mount; volume_name = name }

-- AttachVolume
unfoldable pub attach_volume : ℕ → ℕ → Text → Db → Result Db
unfolding check_holder
attach_volume volume service mount db = do
  v ← or_else (find (volume_by_id volume) db.volumes) no_rows
  refuse v.managed_by_template managed_volume
  refuse (exists (of_volume volume) db.attachments) already_attached
  s ← or_else (find (service_with service) db.services) no_rows
  check_holder v s db
  let c = mounted mount v.runtime_name s.settings
  Settings.validate c
  ok (record db {
    attachments =
        db.attachments
        ++ record { volume_id = volume; service_id = service; mount_path = mount } ∷ [];
    services = update (service_with service) (with_settings c) db.services;
  })

-- DetachVolume
unfoldable pub detach_volume : ℕ → Db → Result Db
detach_volume volume db = do
  v ← or_else (find (volume_by_id volume) db.volumes) no_rows
  a ← or_else (find (of_volume volume) db.attachments) no_rows
  refuse v.managed_by_template managed_volume
  s ← or_else (find (service_with a.service_id) db.services) no_rows
  refuse (serves s) not_stopped
  refuse (unfinished a.service_id db) unfinished_work
  ok (record db {
    attachments = delete (of_volume volume) db.attachments;
    services =
        update (service_with a.service_id) (with_settings (mounted [] [] s.settings)) db.services;
  })

-- PrivateNetwork and VolumeID, which are MD5 digests in hexadecimal
pub record Names : Type 0 where
  pub network : ℕ → String → Text
  pub volume_id : ℕ → ℕ

-- the settings that SaveSettings makes
unfoldable pub resized : Names → Service → ℤ → ℤ → Text → Settings
resized names s memory cpu mount = record s.settings {
  memory_mb = memory;
  cpu_millis = cpu;
  mount_path = mount;
  network = names.network s.project s.environment;
  volume_name = if is_empty mount then s.settings.volume_name else runtime_name s.id;
}

abbrev pub renamed : Text → Volume → Volume
renamed name v = record v { name = name; runtime_name = name }

abbrev pub moved : ℕ → Text → Attachment → Attachment
moved service mount a = record a { service_id = service; mount_path = mount }

unfoldable pub upsert_volume : ℕ → Service → Text → List Volume → List Volume
upsert_volume id s name vs =
    if exists (volume_by_id id) vs
    then update (volume_by_id id) (renamed name) vs
    else vs
      ++ record {
        id = id;
        project = s.project;
        environment = s.environment;
        name = name;
        runtime_name = name;
        managed_by_template = false;
      }
        ∷ []

unfoldable pub upsert_attachment : ℕ → ℕ → Text → List Attachment → List Attachment
upsert_attachment id service mount attachments =
    if exists (of_volume id) attachments
    then update (of_volume id) (moved service mount) attachments
    else attachments ++ record { volume_id = id; service_id = service; mount_path = mount } ∷ []

-- another volume of the service, which the column's UNIQUE refuses
abbrev pub other_volume : ℕ → ℕ → Attachment → Bool
other_volume id service a = a.service_id == service && not (a.volume_id == id)

-- the two upserts of SaveSettings
unfoldable pub save_volume : Names → Service → Settings → Db → Result Db
unfolding upsert_volume upsert_attachment
save_volume names s c db =
    let id = names.volume_id s.id in
    do
      refuse (exists (same_place id s.project s.environment c.volume_name) db.volumes) duplicate_key
      refuse (exists (other_volume id s.id) db.attachments) duplicate_key
      ok (record db {
        volumes = upsert_volume id s c.volume_name db.volumes;
        attachments = upsert_attachment id s.id c.mount_path db.attachments;
      })

-- SaveSettings
unfoldable pub save_resources : Names → ℕ → ℤ → ℤ → Text → Db → Result Db
save_resources names id memory cpu mount db = do
  s ← or_else (find (service_with id) db.services) no_rows
  refuse (not (is_empty s.settings.mount_path) && not (equals mount s.settings.mount_path))
      volume_fixed
  let c = resized names s memory cpu mount
  Settings.validate c
  let saved = record db { services = update (service_with id) (with_settings c) db.services }
  if is_empty c.volume_name then ok saved else save_volume names s c saved
