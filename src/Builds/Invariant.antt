-- ===== src/Builds/Invariant.antt =====
-- What holds of the builds between any two transactions.
pub mod Rows
pub mod Steps
pub mod Queueing
pub mod Deploying
use cloudrail.Builds.{Build}
use cloudrail.Builds.Queue.{build_by_id, pending_build_of}
use cloudrail.Builds.Running.{is_succeeded}
use cloudrail.Common.{All, List, false, is_some, true, ℕ, ◌&&◌, ◌≡◌, ◌≤◌}
use cloudrail.Common.Table.{count}
use cloudrail.Deployment.Invariant.Rows.{rows}

-- At most three attempts, no build that is to be cancelled succeeds, and only builds that succeeded
-- are deployed.
pub record IsBuild (b : Build) : Type 0 where
  pub attempts : b.lease.attempt ≤ 3
  pub not_both : (b.cancel_requested && is_succeeded b.status) ≡ false
  pub deployed : is_some b.deployment_id ≡ true → is_succeeded b.status ≡ true

pub record BuildInv (bs : List Build) : Type 0 where
  pub rows : All IsBuild bs
  pub unique : (id : ℕ) → count (build_by_id id) bs ≤ 1
  pub bounded : (service : ℕ) → count (pending_build_of service) bs ≤ 10
