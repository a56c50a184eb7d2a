-- ===== src/Deployment/Enqueue.antt =====
-- deployment/store.go: queueing a deployment. The code runs in one transaction, which an error
-- rolls back; so an error result carries no database.
pub mod Laws
pub mod Repeats
use text.Mathlib.Text.{◌==◌ as str_eq}
use cloudrail.Common.{
  ℕ, zero, suc, ◌+◌, String, Bool, true, false, not, ◌&&◌, ◌||◌, Option, none, some, List, [], ◌∷◌,
  ◌++◌, ◌==◌, leb, ltb, if◌then◌else◌, length,
}
use cloudrail.Common.Int.{ℤ, pos, negsuc, is_below, is_above}
use cloudrail.Common.Text.{Text, bytes, equals, is_empty, trim, is_space}
use cloudrail.Common.Table.{find, count, update}
use cloudrail.Result.{
  Result, ok, err, require, refuse, or_else, ◌>>=◌, ◌>>◌, no_rows, conflict, cron_schedule,
  duplicate_key, check_violation, template_pinned, action_running, queue_full, no_cipher,
}
use cloudrail.Secrets.{seal}
use cloudrail.Deployment.Model
use cloudrail.Deployment.Model.{
  Db, Service, Deployment, Action, Event, Settings, Spec, Status, queued, Workload, cron, terminal,
  action_pending,
}
use cloudrail.Deployment.Settings
use cloudrail.Deployment.Settings.{normalize}
use cloudrail.Deployment.Jobs.{fresh_lease}
use cloudrail.Deployment.Outside.{Outside, Env, id_text, deployment_scope}
use cloudrail.Deployment.Templates.{Template, data_template}

-- What one request hands over: `key` is the idempotency key, empty where there is none;
-- `start_command` is given for a build; `fresh` and `nonce` are random; `variables` is what
-- Store.variables returns for the service in this transaction.
pub record Request : Type 0 where
  pub service_id : ℕ
  pub spec : Spec
  pub start_command : Option Text
  pub key : Text
  pub fresh : ℕ
  pub nonce : Text
  pub variables : Result Env

-- status NOT IN ('active','failed','superseded')
abbrev pub pending_of : ℕ → Deployment → Bool
pending_of service d = d.service_id == service && not (terminal d.status)

abbrev pub busy_action_of : ℕ → Action → Bool
busy_action_of service a = a.service_id == service && action_pending a.status

abbrev pub is_cron : Workload → Bool
is_cron cron = true
is_cron _ = false

abbrev same_int : ℤ → ℕ → Bool
same_int (pos a) n = a == n
same_int (negsuc _) n = false

-- the image, port and path of a template are pinned
unfoldable pub check_template : Service → Spec → Result (Unit {0})
check_template s spec = if str_eq s.template_key "" then ok tt else do
  t ← data_template s.template_key s.template_version
  require
      (equals spec.image t.image
        && same_int spec.port t.port
        && equals spec.health_path (bytes "/"))
      template_pinned

-- the settings of the service from now on, and those of the deployment
unfoldable pub service_settings : Service → Spec → Settings
service_settings s spec = record (normalize (id_text s.id) s).settings { target_port = spec.port }

unfoldable pub deployment_settings : Settings → Option Text → Result Settings
deployment_settings c none = ok c
deployment_settings c (some command) = do
  let built = record c { start_command = trim is_space command }
  Settings.validate built
  ok built

-- the deployment of the service that carries the key
abbrev pub keyed : ℕ → Text → Deployment → Bool
keyed service key d = d.service_id == service && equals d.request_key key

-- `some d`: the request was made before; the error: another one was made under its key
unfoldable pub find_prior : Text → Request → Db → Result (Option Deployment)
find_prior hash r db =
    if is_empty r.key then ok none else elim (find (keyed r.service_id r.key) db.deployments) [
      | none ↦ ok none
      | some d ↦ if equals d.request_hash hash then ok (some d) else err conflict
    ]

-- no action is unfinished, and fewer than ten deployments are
unfoldable pub check_queue : ℕ → Db → Result (Unit {0})
check_queue service db = do
  refuse (ltb 0 (count (busy_action_of service) db.actions)) action_running
  refuse (leb 10 (count (pending_of service) db.deployments)) queue_full

-- INSERT INTO deployments, with the key columns that the next statement fills
unfoldable pub new_deployment : ℕ → Text → Text → Request → Settings → Deployment
new_deployment now hash sealed r c = record {
  id = r.fresh;
  service_id = r.service_id;
  image = r.spec.image;
  port = r.spec.port;
  health_path = r.spec.health_path;
  status = queued;
  error = [];
  logs = [];
  created_at = now;
  updated_at = now;
  settings = c;
  encrypted_env = sealed;
  request_key = r.key;
  request_hash = if is_empty r.key then [] else hash;
  cancel_requested = false;
  lease = fresh_lease now;
}

abbrev pub with_settings : Settings → Service → Service
with_settings c s = record s { settings = c }

-- the four writes of a successful request
unfoldable pub write_deployment : Db → ℕ → Settings → Deployment → Db
write_deployment db service c d = record db {
  services = update (λ s. s.id == service) (with_settings c) db.services;
  deployments = db.deployments ++ d ∷ [];
  events =
      db.events
      ++ record { deployment_id = d.id; stage = queued; message = bytes "Deployment queued" } ∷ [];
}

-- the snapshot of the variables, sealed
unfoldable pub seal_variables : Outside → Request → Result Text
seal_variables o r = do
  variables ← r.variables
  cipher ← or_else o.cipher no_cipher
  ok (seal cipher r.nonce (o.marshal variables) (deployment_scope r.fresh))

-- the part of the request after its checks
unfoldable pub insert_deployment :
    Outside → ℕ → Text → Request → Settings → Settings → Db → Result (Deployment × Db)
insert_deployment o now hash r c built db = do
  refuse (is_below r.spec.port 1 || is_above r.spec.port 65535) check_violation
  refuse (ltb 0 (count (λ d. d.id == r.fresh) db.deployments)) duplicate_key
  sealed ← seal_variables o r
  let d = new_deployment now hash sealed r built
  ok (d, write_deployment db r.service_id c d)

-- a repeated request returns the deployment that it made
abbrev pub unless_prior :
    Option Deployment → Db → Result (Deployment × Db) → Result (Deployment × Db)
unless_prior none db rest = rest
unless_prior (some d) db rest = ok (d, db)

-- the schedule, the template and the length of the key
unfoldable pub check_request : Service → Request → Result (Unit {0})
unfolding check_template
check_request s r = do
  refuse (is_cron s.workload && is_empty s.cron_schedule) cron_schedule
  check_template s r.spec
  refuse (ltb 128 (length r.key)) conflict

-- after the search for a prior request
unfoldable pub enqueue_new :
    Outside → ℕ → Request → Service → Settings → Db → Result (Deployment × Db)
enqueue_new o now r s built db = do
  check_queue r.service_id db
  insert_deployment o now (o.request_hash r.spec r.start_command) r (service_settings s r.spec)
      built db

-- after the checks that need the service's row alone
unfoldable pub enqueue_checked :
    Outside → ℕ → Request → Service → Settings → Db → Result (Deployment × Db)
unfolding find_prior
enqueue_checked o now r s built db = do
  prior ← find_prior (o.request_hash r.spec r.start_command) r db
  unless_prior prior db (enqueue_new o now r s built db)

unfoldable pub enqueue_for : Outside → ℕ → Request → Service → Db → Result (Deployment × Db)
enqueue_for o now r s db = do
  built ← deployment_settings (service_settings s r.spec) r.start_command
  check_request s r
  enqueue_checked o now r s built db

-- enqueueTxWithStart
unfoldable pub enqueue : Outside → ℕ → Request → Db → Result (Deployment × Db)
enqueue o now r db = do
  s ← or_else (find (λ s. s.id == r.service_id) db.services) no_rows
  enqueue_for o now r s db
