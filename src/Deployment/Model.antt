-- ===== src/Deployment/Model.antt =====
-- deployment/model.go, reliability.go and the migrations: the rows of the tables, their states, and
-- the database that a transaction reads and writes.
-- An identifier is the number whose 24 hexadecimal digits `ID` prints, so the order of identifiers
-- is that of their texts; SQL's '' in a column for an identifier is `none`. A time is a number of
-- microseconds. A column of type jsonb holds the value that the program marshals into it.
use cloudrail.Common.{ℕ, String, Bool, true, false, Option, List, ◌*◌}
use cloudrail.Common.Int.{ℤ}
use cloudrail.Common.Text.{Text}

pub data Status : Type 0 where
  queued pulling predeploy starting checking routing active failed superseded : Status

pub data ActionKind : Type 0 where
  start stop restart backup restore : ActionKind

pub data ActionStatus : Type 0 where
  queued running done failed : ActionStatus

pub data RunStatus : Type 0 where
  queued running succeeded failed : RunStatus

pub data DesiredState : Type 0 where
  running stopped : DesiredState

pub data ResourceKind : Type 0 where
  service database : ResourceKind

-- The texts that the program compares a workload mode with; `unset` is the empty one.
pub data Workload : Type 0 where
  unset web worker cron : Workload
  other : String → Workload

pub data Kind : Type 0 where
  http postgres redis mysql mongo : Kind
  other : String → Kind

pub data RestartPolicy : Type 0 where
  unset on_failure always never : RestartPolicy
  other : String → RestartPolicy

unfoldable pub terminal : Status → Bool
terminal active = true
terminal failed = true
terminal superseded = true
terminal _ = false

abbrev pub is_active : Status → Bool
is_active active = true
is_active _ = false

abbrev pub is_failed : Status → Bool
is_failed failed = true
is_failed _ = false

-- status IN ('queued','running') of a service action
unfoldable pub action_pending : ActionStatus → Bool
action_pending queued = true
action_pending running = true
action_pending _ = false

-- status IN ('queued','running') of a cron run
unfoldable pub run_pending : RunStatus → Bool
run_pending queued = true
run_pending running = true
run_pending _ = false

unfoldable pub is_data_kind : Kind → Bool
is_data_kind postgres = true
is_data_kind redis = true
is_data_kind mysql = true
is_data_kind mongo = true
is_data_kind _ = false

pub record Settings : Type 0 where
  pub kind : Kind
  pub memory_mb : ℤ
  pub cpu_millis : ℤ
  pub mount_path : Text
  pub volume_name : Text
  pub network : Text
  pub start_command : Text
  pub pre_deploy_command : Text
  pub pre_deploy_timeout_seconds : ℤ
  pub restart_policy : RestartPolicy
  pub restart_max_retries : ℤ
  pub private_host : Text
  pub public_enabled : Option Bool
  pub target_port : ℤ

pub record Service : Type 0 where
  pub id : ℕ
  pub project : ℕ
  pub environment : String
  pub name : Text
  pub active_id : Option ℕ
  pub desired_state : DesiredState
  pub settings : Settings
  pub resource_kind : ResourceKind
  pub workload : Workload
  pub template_key : String
  pub template_version : String
  pub cron_schedule : Text
  pub cron_next_run : Option ℕ

-- The columns that the three job tables share.
pub record Lease : Type 0 where
  pub attempt : ℕ
  pub attempt_token : Option ℕ
  pub deadline : Option ℕ
  pub next_attempt : ℕ

pub record Deployment : Type 0 where
  pub id : ℕ
  pub service_id : ℕ
  pub image : Text
  pub port : ℤ
  pub health_path : Text
  pub status : Status
  pub error : Text
  pub logs : Text
  pub created_at : ℕ
  pub updated_at : ℕ
  pub settings : Settings
  pub encrypted_env : Text
  pub request_key : Text
  pub request_hash : Text
  pub cancel_requested : Bool
  pub lease : Lease

pub record Action : Type 0 where
  pub id : ℕ
  pub service_id : ℕ
  pub kind : ActionKind
  pub status : ActionStatus
  pub error : Text
  pub backup_id : Option ℕ
  pub created_at : ℕ
  pub lease : Lease

pub record CronRun : Type 0 where
  pub id : ℕ
  pub service_id : ℕ
  pub deployment_id : ℕ
  pub scheduled_for : ℕ
  pub status : RunStatus
  pub exit_code : Option ℤ
  pub logs : Text
  pub error : Text
  pub started_at : Option ℕ
  pub finished_at : Option ℕ
  pub lease : Lease

pub record Event : Type 0 where
  pub deployment_id : ℕ
  pub stage : Status
  pub message : Text

pub record Volume : Type 0 where
  pub id : ℕ
  pub project : ℕ
  pub environment : String
  pub name : Text
  pub runtime_name : Text
  pub managed_by_template : Bool

pub record Attachment : Type 0 where
  pub volume_id : ℕ
  pub service_id : ℕ
  pub mount_path : Text

pub record Db : Type 0 where
  pub services : List Service
  pub deployments : List Deployment
  pub events : List Event
  pub actions : List Action
  pub runs : List CronRun
  pub backups : List ℕ
  pub volumes : List Volume
  pub attachments : List Attachment

-- `status` is none for the empty text, by which the agent sends logs alone; `attempt` is none for
-- an attempt header that is absent or no token.
pub record Report : Type 0 where
  pub attempt : Option ℕ
  pub status : Option Status
  pub message : Text
  pub logs : Text

pub record Spec : Type 0 where
  pub image : Text
  pub port : ℤ
  pub health_path : Text

pub record ComputeSpec : Type 0 where
  pub name : Text
  pub environment : String
  pub workload : Workload
  pub source_type : String

abbrev pub seconds : ℕ → ℕ
seconds n = n * 1000000
