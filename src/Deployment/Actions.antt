-- ===== src/Deployment/Actions.antt =====
-- deployment/workspace.go: starting, stopping, restarting, backing up and restoring a service.
use cloudrail.Common.{
  ℕ, Bool, true, false, not, ◌&&◌, ◌||◌, Option, none, some, List, [], ◌∷◌, ◌++◌, ◌==◌, ◌==?◌,
  if◌then◌else◌,
}
use cloudrail.Common.Text.{Text, equals, is_empty}
use cloudrail.Common.Table.{find, exists, update}
use cloudrail.Result.{
  Result, ok, err, require, refuse, or_else, ◌>>=◌, ◌>>◌, no_rows, duplicate_key, never_deployed,
  volume_changed, backup_not_allowed, backup_missing, unfinished_work, invalid_status,
  already_finished,
}
use cloudrail.Deployment.Model.{
  Db, Service, Action, ActionKind, ActionStatus, CronRun, DesiredState, Kind, run_pending, http,
  postgres, redis, mysql, mongo,
}
use cloudrail.Deployment.Jobs.{check_attempt, fresh_lease}
use cloudrail.Deployment.Enqueue.{pending_of, busy_action_of}

-- status IN ('queued','running') of a cron run of the service
abbrev pub pending_run_of : ℕ → CronRun → Bool
pending_run_of service r = r.service_id == service && run_pending r.status

-- the query `busy` of EnqueueAction, AttachVolume and DetachVolume
unfoldable pub unfinished : ℕ → Db → Bool
unfinished service db =
    exists (pending_of service) db.deployments
    || exists (busy_action_of service) db.actions
    || exists (pending_run_of service) db.runs

abbrev pub starts : ActionKind → Bool
starts ActionKind.start = true
starts ActionKind.restart = true
starts _ = false

abbrev pub saves : ActionKind → Bool
saves ActionKind.backup = true
saves ActionKind.restore = true
saves _ = false

abbrev pub restores : ActionKind → Bool
restores ActionKind.restore = true
restores _ = false

abbrev pub is_running : DesiredState → Bool
is_running DesiredState.running = true
is_running DesiredState.stopped = false

-- volumeName or mountPath of the service differ from those of its active release; without a row
-- for the release the join is empty
unfoldable pub volume_changes : Service → ℕ → Db → Result Bool
volume_changes s release db = do
  d ← or_else (find (λ d. d.id == release) db.deployments) no_rows
  let name_kept = equals s.settings.volume_name d.settings.volume_name
  let path_kept = equals s.settings.mount_path d.settings.mount_path
  ok (not name_kept || not path_kept)

-- a database that is dumped while it runs
abbrev pub dumps : Kind → Bool
dumps postgres = true
dumps mysql = true
dumps mongo = true
dumps _ = false

-- a workload whose volume is copied while it is stopped
abbrev pub copies : Kind → Bool
copies http = true
copies redis = true
copies _ = false

unfoldable pub may_save : Service → Bool
may_save s =
    (dumps s.settings.kind && is_running s.desired_state)
    || (copies s.settings.kind
        && not (is_empty s.settings.volume_name)
        && not (is_running s.desired_state))

unfoldable pub check_volume : ActionKind → Service → ℕ → Db → Result (Unit {0})
check_volume kind s release db =
    let changes = volume_changes s release db >>= λ changed. refuse changed volume_changed in
    if starts kind then changes else ok tt

-- the backup that a restore names
unfoldable pub check_backup : ActionKind → Option ℕ → Db → Result (Unit {0})
check_backup kind backup db =
    if restores kind then require (exists (λ b. backup ==? b) db.backups) backup_missing else ok tt

unfoldable pub new_action : ℕ → ℕ → ℕ → ActionKind → Option ℕ → Action
new_action now fresh service kind backup = record {
  id = fresh;
  service_id = service;
  kind = kind;
  status = ActionStatus.queued;
  error = [];
  backup_id = backup;
  created_at = now;
  lease = fresh_lease now;
}

-- EnqueueAction; the kinds that it refuses are no kinds of the model
unfoldable pub enqueue_action : ℕ → ℕ → ℕ → ActionKind → Option ℕ → Db → Result (Action × Db)
enqueue_action now fresh service kind backup db = do
  s ← or_else (find (λ s. s.id == service) db.services) no_rows
  release ← or_else s.active_id never_deployed
  check_volume kind s release db
  require (not (saves kind) || may_save s) backup_not_allowed
  check_backup kind backup db
  refuse (unfinished service db) unfinished_work
  refuse (exists (λ a. a.id == fresh) db.actions) duplicate_key
  let a = new_action now fresh service kind backup
  ok (a, record db { actions = db.actions ++ a ∷ [] })

abbrev pub action_finished : ActionStatus → Bool
action_finished ActionStatus.done = true
action_finished ActionStatus.failed = true
action_finished _ = false

abbrev pub same_action : ActionStatus → ActionStatus → Bool
same_action ActionStatus.done ActionStatus.done = true
same_action ActionStatus.failed ActionStatus.failed = true
same_action ActionStatus.queued ActionStatus.queued = true
same_action ActionStatus.running ActionStatus.running = true
same_action _ _ = false

abbrev pub is_done : ActionStatus → Bool
is_done ActionStatus.done = true
is_done _ = false

-- the state that the service is in after the action, where the action sets one
abbrev pub desired_after : ActionKind → Option DesiredState
desired_after ActionKind.start = some DesiredState.running
desired_after ActionKind.restart = some DesiredState.running
desired_after ActionKind.stop = some DesiredState.stopped
desired_after _ = none

unfoldable pub set_desired : Option DesiredState → ℕ → List Service → List Service
set_desired none service ss = ss
set_desired (some desired) service ss =
    update (λ s. s.id == service) (λ s. record s { desired_state = desired }) ss

abbrev pub action_by_id : ℕ → Action → Bool
action_by_id id a = a.id == id

abbrev pub action_reported : ActionStatus → Text → Action → Action
action_reported status message a = record a { status = status; error = message }

-- ReportAction
unfoldable pub report_action : ℕ → ℕ → Option ℕ → ActionStatus → Text → Db → Result Db
unfolding set_desired
report_action now id attempt status message db = do
  require (action_finished status) invalid_status
  a ← or_else (find (action_by_id id) db.actions) no_rows
  check_attempt now attempt false a.lease
  if action_finished a.status
      then (if same_action a.status status then ok db else err already_finished)
      else ok (record db {
        actions = update (action_by_id id) (action_reported status message) db.actions;
        services =
            set_desired (if is_done status then desired_after a.kind else none) a.service_id
              db.services;
      })
