-- ===== src/Deployment/Claim.antt =====
-- deployment/store.go: handing the next piece of work to the agent.
pub mod Laws
pub mod Fencing
use cloudrail.Common.{
  ℕ, suc, ◌+◌, Bool, true, false, not, ◌&&◌, ◌||◌, Option, none, some, List, [], ◌∷◌, ◌++◌, ◌==◌,
  ltb, leb, if◌then◌else◌, is_some,
}
use cloudrail.Common.Text.{Text, is_empty}
use cloudrail.Common.Table.{find, exists, update, first_by}
use cloudrail.Result.{
  Result, ok, err, require, refuse, or_else, ◌>>=◌, ◌>>◌, no_rows, conflict, duplicate_key,
  no_next_run,
}
use cloudrail.Deployment.Model.{
  Db, Service, Deployment, Action, ActionStatus, CronRun, RunStatus, Status, failed, Lease,
  Workload, cron, terminal, action_pending, run_pending,
}
use cloudrail.Deployment.Jobs.{
  may_start, started, is_expired, is_due, coalesce, fresh_lease, expired_message,
}
use cloudrail.Deployment.Outside.{Outside, Env, deployment_env, id_text}
use cloudrail.Deployment.Settings.{normalize}
use cloudrail.Deployment.Cron.{Parser, cron_next, run_by_id}
use cloudrail.Deployment.Report.{by_id}
use cloudrail.Deployment.Actions.{action_by_id, is_running, pending_run_of}

-- The work handed out: the attempt's token, and what the agent is to run.
pub record Work : Type 0 where
  pub attempt : ℕ
  pub action : Option Action
  pub run : Option CronRun
  pub deployment : Deployment
  pub service : Service
  pub env : Env
  pub previous : Option (Deployment × Env)

-- the time, the token and the identifier that this claim draws, and the schedule parser
pub record Turn : Type 0 where
  pub now : ℕ
  pub token : ℕ
  pub fresh : ℕ
  pub parse : Parser

abbrev pub expirable : ℕ → Deployment → Bool
expirable now d = not (terminal d.status) && is_expired now d.lease

abbrev pub expired : ℕ → Deployment → Deployment
expired now d = record d { status = failed; error = expired_message; updated_at = now }

abbrev pub expirable_action : ℕ → Action → Bool
expirable_action now a = action_pending a.status && is_expired now a.lease

abbrev pub expired_action : Action → Action
expired_action a = record a { status = ActionStatus.failed; error = expired_message }

abbrev pub expirable_run : ℕ → CronRun → Bool
expirable_run now r = run_pending r.status && is_expired now r.lease

abbrev pub expired_run : CronRun → CronRun
expired_run r = record r { status = RunStatus.failed; error = expired_message }

-- the first loop of Claim; for actions and runs, NOT IN the final states is IN the pending ones
unfoldable pub expire : ℕ → Db → Db
expire now db = record db {
  deployments = update (expirable now) (expired now) db.deployments;
  actions = update (expirable_action now) expired_action db.actions;
  runs = update (expirable_run now) expired_run db.runs;
}

-- (created_at, id) < (created_at, id)
abbrev pub older : ℕ → ℕ → ℕ → ℕ → Bool
older t i u j = ltb t u || (t == u && ltb i j)

abbrev pub action_before : Action → Action → Bool
action_before a b = older a.created_at a.id b.created_at b.id

abbrev pub deployment_before : Deployment → Deployment → Bool
deployment_before a b = older a.created_at a.id b.created_at b.id

abbrev pub run_before : CronRun → CronRun → Bool
run_before a b = older a.scheduled_for a.id b.scheduled_for b.id

abbrev pub due_action : ℕ → Action → Bool
due_action now a = action_pending a.status && is_due now a.lease

-- an unfinished deployment of the same service that comes before
abbrev pub ahead_of : Deployment → Deployment → Bool
ahead_of d e = e.service_id == d.service_id && not (terminal e.status) && deployment_before e d

abbrev pub due_deployment : ℕ → List Deployment → Deployment → Bool
due_deployment now ds d =
    not (terminal d.status) && is_due now d.lease && not (exists (ahead_of d) ds)

abbrev pub due_run : ℕ → CronRun → Bool
due_run now r = run_pending r.status && is_due now r.lease

abbrev pub start_deployment : ℕ → ℕ → Deployment → Deployment
start_deployment now token d = record d { lease = started now token d.lease }

abbrev pub start_action : ℕ → ℕ → Action → Action
start_action now token a = record a {
  status = ActionStatus.running;
  lease = started now token a.lease;
}

abbrev pub start_run : ℕ → ℕ → CronRun → CronRun
start_run now token r = record r {
  status = RunStatus.running;
  started_at = some (coalesce r.started_at now);
  lease = started now token r.lease;
}

abbrev pub service_with_id : ℕ → Service → Bool
service_with_id id s = s.id == id

-- scanSvc: a row of a service, its settings normalised
abbrev pub scanned : Service → Service
scanned s = normalize (id_text s.id) s

-- the active release of the service of an action
unfoldable pub release_of : Service → Db → Result Deployment
release_of s db = do
  id ← or_else s.active_id no_rows
  or_else (find (by_id id) db.deployments) no_rows

unfoldable pub claim_action : Outside → Turn → Action → Db → Result (Work × Db)
claim_action o t a db = do
  s ← or_else (find (service_with_id a.service_id) db.services) no_rows
  d ← release_of s db
  env ← deployment_env o d
  require (may_start t.now a.lease) conflict
  ok (
    record {
      attempt = t.token;
      action = some a;
      run = none;
      deployment = d;
      service = scanned s;
      env = env;
      previous = none;
    },
    record db { actions = update (action_by_id a.id) (start_action t.now t.token) db.actions },
  )

-- the release that serves now, where there is one and the service is not stopped
unfoldable pub previous_of : Outside → Service → Db → Result (Option (Deployment × Env))
previous_of o s db =
    let fetch = release_of s db >>= λ p. deployment_env o p >>= λ env. ok (some (p, env)) in
    if is_some s.active_id && is_running s.desired_state then fetch else ok none

unfoldable pub claim_deployment : Outside → Turn → Deployment → Db → Result (Work × Db)
claim_deployment o t d db = do
  s ← or_else (find (service_with_id d.service_id) db.services) no_rows
  require (may_start t.now d.lease) conflict
  previous ← previous_of o s db
  env ← deployment_env o d
  ok (
    record {
      attempt = t.token;
      action = none;
      run = none;
      deployment = d;
      service = scanned s;
      env = env;
      previous = previous;
    },
    record db { deployments = update (by_id d.id) (start_deployment t.now t.token) db.deployments },
  )

unfoldable pub claim_run : Outside → Turn → CronRun → Db → Result (Work × Db)
claim_run o t r db = do
  s ← or_else (find (service_with_id r.service_id) db.services) no_rows
  d ← or_else (find (by_id r.deployment_id) db.deployments) no_rows
  env ← deployment_env o d
  require (may_start t.now r.lease) conflict
  ok (
    record {
      attempt = t.token;
      action = none;
      run = some (record r { status = RunStatus.running });
      deployment = d;
      service = scanned s;
      env = env;
      previous = none;
    },
    record db { runs = update (run_by_id r.id) (start_run t.now t.token) db.runs },
  )

abbrev is_cron : Workload → Bool
is_cron cron = true
is_cron _ = false

abbrev pub due_by : ℕ → Option ℕ → Bool
due_by now none = false
due_by now (some t) = leb t now

-- a cron service whose next run is due, and that has no unfinished run
abbrev pub due_service : ℕ → List CronRun → Service → Bool
due_service now runs s =
    is_cron s.workload
    && is_running s.desired_state
    && is_some s.active_id
    && not (is_empty s.cron_schedule)
    && due_by now s.cron_next_run
    && not (exists (pending_run_of s.id) runs)

abbrev pub service_before : Service → Service → Bool
service_before a b = older (coalesce a.cron_next_run 0) a.id (coalesce b.cron_next_run 0) b.id

unfoldable pub new_run : ℕ → ℕ → Service → ℕ → ℕ → CronRun
new_run now fresh s release at = record {
  id = fresh;
  service_id = s.id;
  deployment_id = release;
  scheduled_for = at;
  status = RunStatus.queued;
  exit_code = none;
  logs = [];
  error = [];
  started_at = none;
  finished_at = none;
  lease = fresh_lease now;
}

-- UNIQUE(service_id, scheduled_for), the primary key, and one unfinished run for each service
unfoldable pub clashes : CronRun → CronRun → Bool
clashes r q =
    q.id == r.id
    || (q.service_id == r.service_id && q.scheduled_for == r.scheduled_for)
    || pending_run_of r.service_id q

abbrev pub with_next_run : ℕ → Service → Service
with_next_run next s = record s { cron_next_run = some next }

-- the branch of claimCronTx that queues the run of a schedule
unfoldable pub schedule_run : Turn → Service → Db → Result (CronRun × Db)
schedule_run t s db = do
  at ← or_else s.cron_next_run no_next_run
  next ← cron_next t.parse s.cron_schedule t.now
  release ← or_else s.active_id no_rows
  let r = new_run t.now t.fresh s release at
  refuse (exists (clashes r) db.runs) duplicate_key
  ok (
    r,
    record db {
      runs = db.runs ++ r ∷ [];
      services = update (service_with_id s.id) (with_next_run next) db.services;
    },
  )

-- the piece of work, and the database after it
abbrev pub found : Result (Work × Db) → Result (Option Work × Db)
found (ok (w, db)) = ok (some w, db)
found (err e) = err e

-- claimCronTx, from the results of its two queries
unfoldable pub claim_cron_from :
    Outside → Turn → Db → Option CronRun → Option Service → Result (Option Work × Db)
claim_cron_from o t db (some r) due = found (claim_run o t r db)
claim_cron_from o t db none (some s) = do
  scheduled ← schedule_run t s db
  found (claim_run o t scheduled.0 scheduled.1)
claim_cron_from o t db none none = ok (none, db)

unfoldable pub claim_cron : Outside → Turn → Db → Result (Option Work × Db)
unfolding claim_cron_from
claim_cron o t db =
    claim_cron_from o t db (first_by run_before (due_run t.now) db.runs)
      (first_by service_before (due_service t.now db.runs) db.services)

-- Claim, from the results of its queries for an action and for a deployment
unfoldable pub claim_from :
    Outside → Turn → Db → Option Action → Option Deployment → Result (Option Work × Db)
claim_from o t db (some a) due = found (claim_action o t a db)
claim_from o t db none (some d) = found (claim_deployment o t d db)
claim_from o t db none none = claim_cron o t db

-- Claim, after its first loop
unfoldable pub claim_due : Outside → Turn → Db → Result (Option Work × Db)
unfolding claim_from
claim_due o t db =
    claim_from o t db (first_by action_before (due_action t.now) db.actions)
      (first_by deployment_before (due_deployment t.now db.deployments) db.deployments)

-- Store.Claim
unfoldable pub claim : Outside → Turn → Db → Result (Option Work × Db)
unfolding expire claim_due
claim o t db = claim_due o t (expire t.now db)
