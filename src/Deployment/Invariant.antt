-- ===== src/Deployment/Invariant.antt =====
-- What holds of the store between any two transactions.
pub mod Rows
pub mod Queueing
pub mod Superseding
pub mod Reporting
pub mod Cancelling
pub mod Claiming
pub mod Others
pub mod Settings
pub mod Creating
use cloudrail.Common.{
  ℕ, suc, ◌+◌, ◌≤◌, ◌≡◌, ◌≢◌, refl, Bool, true, false, Option, none, some, List, [], ◌∷◌, ◌++◌,
  ◌==◌, arith, All, if◌then◌else◌, not, ◌&&◌,
}
use cloudrail.Common.Table.{find, count}
use cloudrail.Deployment.Model.{Db, Service, Deployment, is_active, terminal}
use cloudrail.Deployment.Jobs.Laws.{IsLease}
use cloudrail.Deployment.Enqueue.{pending_of}
use cloudrail.Deployment.Report.{by_id}

abbrev pub service_by_id : ℕ → Service → Bool
service_by_id id s = s.id == id

abbrev pub active_id_of : Option Service → Option ℕ
active_id_of none = none
active_id_of (some s) = s.active_id

-- services.active_id of a service
unfoldable pub active_of : List Service → ℕ → Option ℕ
active_of ss id = active_id_of (find (service_by_id id) ss)

-- An active deployment is the one that its service names.
abbrev pub IsServed : List Service → Deployment → Type 0
IsServed ss d = is_active d.status ≡ true → active_of ss d.service_id ≡ some d.id

-- The store between transactions: active deployments are those that the services name, an
-- identifier stands for one deployment, every deployment's attempts are in order, and no service
-- has more than ten unfinished deployments.
pub record Inv (db : Db) : Type 0 where
  pub served : All (IsServed db.services) db.deployments
  pub unique : (id : ℕ) → count (by_id id) db.deployments ≤ 1
  pub leased : All (λ d. IsLease d.lease) db.deployments
  pub bounded : (service : ℕ) → count (pending_of service) db.deployments ≤ 10
