-- ===== src/Deployment/Report.antt =====
-- deployment/store.go and reliability.go: what an agent reports of a deployment, and cancelling one.
pub mod Laws
use cloudrail.Common.{
  ℕ, zero, suc, String, Bool, true, false, not, ◌&&◌, ◌||◌, Option, none, some, List, [], ◌∷◌, ◌++◌,
  ◌==◌, ◌==?◌, ltb, if◌then◌else◌,
}
use cloudrail.Common.Text.{Text, bytes, is_empty, replace_all}
use cloudrail.Common.Table.{find, count, update}
use cloudrail.Result.{
  Result, ok, err, require, refuse, or_else, ◌>>=◌, ◌>>◌, no_rows, conflict, already_finished,
}
use cloudrail.Deployment.Model.{
  Db, Service, Deployment, Event, Report, Status, DesiredState, queued, pulling, predeploy,
  starting, checking, routing, active, failed, superseded, terminal, is_active, is_failed,
}
use cloudrail.Deployment.Jobs.{check_attempt}
use cloudrail.Deployment.Outside.{Outside, Env, deployment_env}

abbrev status_index : Status → ℕ
status_index queued = 0
status_index pulling = 1
status_index predeploy = 2
status_index starting = 3
status_index checking = 4
status_index routing = 5
status_index active = 6
status_index failed = 7
status_index superseded = 8

-- a == b, for two statuses
unfoldable pub same_status : Status → Status → Bool
same_status a b = status_index a == status_index b

unfoldable pub redacted : Text
redacted = bytes "[REDACTED]"

-- Every value of the environment that is not empty is replaced. The loop of the source visits a map,
-- in any order; `env` lists the map in the order of the visits.
unfoldable pub redact : Env → Text → Text
redact [] s = s
redact ((k, v) ∷ env) s = redact env (if is_empty v then s else replace_all s v redacted)

abbrev pub by_id : ℕ → Deployment → Bool
by_id id d = d.id == id

abbrev pub to_superseded : ℕ → Deployment → Deployment
to_superseded now d = record d { status = superseded; updated_at = now }

-- WHERE id=$1 AND status='active'
abbrev pub active_with : ℕ → Deployment → Bool
active_with id d = d.id == id && is_active d.status

-- UPDATE deployments SET status='superseded' of the release that was active
unfoldable pub supersede : ℕ → Option ℕ → List Deployment → List Deployment
supersede now none ds = ds
supersede now (some old) ds = update (active_with old) (to_superseded now) ds

abbrev pub activated : ℕ → Service → Service
activated id s = record s { active_id = some id; desired_state = DesiredState.running }

-- the branch of Report for the status active
unfoldable pub activate : ℕ → Deployment → Db → Result Db
unfolding supersede
activate now d db = do
  s ← or_else (find (λ s. s.id == d.service_id) db.services) no_rows
  ok (record db {
    services = update (λ s. s.id == d.service_id) (activated d.id) db.services;
    deployments = supersede now s.active_id db.deployments;
  })

abbrev pub reported : ℕ → Status → Text → Text → Deployment → Deployment
reported now status message logs d = record d {
  status = status;
  error = if is_failed status then message else [];
  logs = logs;
  updated_at = now;
}

-- an event is recorded where the status changes
abbrev pub event_of : Deployment → Status → Text → List Event
event_of d status message =
    if same_status d.status status
    then []
    else record { deployment_id = d.id; stage = status; message = message } ∷ []

-- the last two statements of Report
unfoldable pub settle : ℕ → Deployment → Status → Text → Text → Db → Db
settle now d status message logs db = record db {
  deployments = update (by_id d.id) (reported now status message logs) db.deployments;
  events = db.events ++ event_of d status message;
}

-- the writes of a report with a status, on a deployment that is not finished
unfoldable pub advance : ℕ → Deployment → Status → Text → Text → Db → Result Db
unfolding activate settle
advance now d status message logs db = do
  db' ← (if is_active status then activate now d db else ok db)
  ok (settle now d status message logs db')

unfoldable pub report_status : ℕ → Deployment → Option ℕ → Status → Text → Text → Db → Result Db
unfolding advance
report_status now d attempt status message logs db = do
  check_attempt now attempt (is_active status && d.cancel_requested) d.lease
  if terminal d.status
      then (if same_status d.status status then ok db else err already_finished)
      else advance now d status message logs db

abbrev pub with_logs : Text → Deployment → Deployment
with_logs logs d = record d { logs = logs }

-- the report on the deployment's row, its texts redacted
unfoldable pub report_on : ℕ → Report → Deployment → Env → Db → Result Db
unfolding report_status
report_on now r d env db = elim r.status [
  | none ↦ ok (record db {
    deployments = update (by_id d.id) (with_logs (redact env r.logs)) db.deployments;
  })
  | some status ↦ report_status now d r.attempt status (redact env r.message) (redact env r.logs) db
]

-- Store.Report
unfoldable pub report : Outside → ℕ → ℕ → Report → Db → Result Db
unfolding report_on
report o now id r db = do
  d ← or_else (find (by_id id) db.deployments) no_rows
  env ← deployment_env o d
  report_on now r d env db

unfoldable pub cancelled_message : Text
cancelled_message = bytes "Cancelled before execution"

abbrev is_queued : Status → Bool
is_queued queued = true
is_queued _ = false

-- the CASE expressions of Cancel
unfoldable pub cancelled : ℕ → Deployment → Deployment
cancelled now d =
    let never = is_queued d.status && d.lease.attempt == 0 in
    record d {
      cancel_requested = true;
      status = if never then failed else d.status;
      error = if never then cancelled_message else d.error;
      updated_at = now;
    }

abbrev pub cancellable : ℕ → Deployment → Bool
cancellable id d = d.id == id && not (terminal d.status)

-- Store.Cancel; the update touches no row where there is none to cancel
unfoldable pub cancel : ℕ → ℕ → Db → Result Db
unfolding cancelled
cancel now id db = do
  require (ltb 0 (count (cancellable id) db.deployments)) conflict
  ok (record db { deployments = update (cancellable id) (cancelled now) db.deployments })
