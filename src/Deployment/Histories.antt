-- ===== src/Deployment/Histories.antt =====
-- Whole histories of the store: every operation of internal/deployment that writes to the tables of
-- services and deployments, one after another. Each runs alone: the statements of two operations are
-- not interleaved here. The operations on variables, references, buckets, projects, environments and
-- the canvas write neither table and are left out.
pub mod Laws
pub mod Finality
use cloudrail.Common.{Bool, List, Option, String, [], ℕ, ◌∷◌}
use cloudrail.Common.Int.{ℤ}
use cloudrail.Common.Text.{Text}
use cloudrail.Deployment.Actions.{enqueue_action, report_action}
use cloudrail.Deployment.Claim.{Turn, claim}
use cloudrail.Deployment.Creation.{Registry, create_compute, set_domain}
use cloudrail.Deployment.Cron.{Parser, RunReport, report_run, save_schedule}
use cloudrail.Deployment.Databases.{DatabaseDraws, Site, create_database}
use cloudrail.Deployment.Databases.Binding.{bind_database}
use cloudrail.Deployment.Enqueue.{Request, enqueue}
use cloudrail.Deployment.Model.{ActionKind, ActionStatus, ComputeSpec, Db, Report}
use cloudrail.Deployment.Networking.{RuntimeSettings, save_networking, save_runtime}
use cloudrail.Deployment.Outside.{Outside}
use cloudrail.Deployment.Report.{cancel, report}
use cloudrail.Deployment.Variables.{Workspace}
use cloudrail.Deployment.Volumes.{
  Names, attach_volume, create_volume, detach_volume, save_resources,
}
use cloudrail.Result.{Result, err, ok}

-- A call at a time. A turn of the agent carries its own time.
pub data Call : Type 0 where
  enqueues : Request → Call
  cancels : ℕ → Call
  reports : ℕ → Report → Call
  claims : Turn → Call
  acts : ℕ → ℕ → ActionKind → Option ℕ → Call
  reports_action : ℕ → Option ℕ → ActionStatus → Text → Call
  schedules : Parser → ℕ → Text → Call
  reports_run : ℕ → RunReport → Call
  -- the volumes and the settings
  adds_volume : ℕ → Bool → ℕ → String → Text → Call
  attaches : ℕ → ℕ → Text → Call
  detaches : ℕ → Call
  resizes : Names → ℕ → ℤ → ℤ → Text → Call
  networks : ℕ → Bool → ℤ → Call
  tunes : ℕ → RuntimeSettings → Call
  -- these use other tables too, which hold anything at that time
  adds_service : Names → ℕ → Text → ℕ → ComputeSpec → Registry → Call
  adds_database : Names → DatabaseDraws → ℕ → Text → String → String → Site → Call
  binds : Names → Text → ℕ → ℕ → Text → Workspace → Call
  names_host : Text → ℕ → Text → Registry → Call

-- a transaction that fails is rolled back
abbrev pub after : Db → Result Db → Db
after db (ok q) = q
after db (err e) = db

abbrev pub second {ℓ} : {A : Type ℓ} → Result (A × Db) → Result Db
second (ok (a, db)) = ok db
second (err e) = err e

abbrev pub of_registry {ℓ} : {A : Type ℓ} → Result (A × Registry) → Result Db
of_registry (ok (a, r)) = ok r.main
of_registry (err e) = err e

abbrev pub of_hosts : Result Registry → Result Db
of_hosts (ok r) = ok r.main
of_hosts (err e) = err e

abbrev pub of_site {ℓ} : {A : Type ℓ} → Result (A × Site) → Result Db
of_site (ok (a, s)) = ok s.workspace.main
of_site (err e) = err e

abbrev pub site_of : Db → Site → Site
site_of db site = record site { workspace = record site.workspace { main = db } }

unfoldable pub step : Outside → Db → ℕ × Call → Db
step o db (now, enqueues r) = after db (second (enqueue o now r db))
step o db (now, cancels id) = after db (cancel now id db)
step o db (now, reports id r) = after db (report o now id r db)
step o db (now, claims t) = after db (second (claim o t db))
step o db (now, acts fresh i kind backup) =
    after db (second (enqueue_action now fresh i kind backup db))
step o db (now, reports_action id attempt status message) =
    after db (report_action now id attempt status message db)
step o db (now, schedules parse id schedule) = after db (save_schedule parse now id schedule db)
step o db (now, reports_run id r) = after db (report_run o now id r db)
step o db (now, adds_volume fresh known project environment name) =
    after db (second (create_volume fresh known project environment name db))
step o db (now, attaches volume service mount) = after db (attach_volume volume service mount db)
step o db (now, detaches volume) = after db (detach_volume volume db)
step o db (now, resizes names id memory cpu mount) =
    after db (save_resources names id memory cpu mount db)
step o db (now, networks id public port) = after db (second (save_networking id public port db))
step o db (now, tunes id r) = after db (second (save_runtime id r db))
step o db (now, adds_service names fresh domain project spec r) =
    after db (of_registry (create_compute names fresh domain project spec (record r { main = db })))
step o db (now, adds_database names d project name environment key site) =
    after db (of_site (create_database o names d project name environment key (site_of db site)))
step o db (now, binds names nonce database target name w) =
    (bind_database o names nonce database target name (record w { main = db })).1.main
step o db (now, names_host dashboard id host r) =
    after db (of_hosts (set_domain dashboard id host (record r { main = db })))

unfoldable pub run : Outside → Db → List (ℕ × Call) → Db
run o db [] = db
run o db (c ∷ cs) = run o (step o db c) cs
