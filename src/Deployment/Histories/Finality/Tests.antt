-- ===== src/Deployment/Histories/Finality/Tests.antt =====
-- A deployment that is active, and a claim of the next one.
use cloudrail.Common.{[], none, refl, some, ◌∷◌, ◌≡◌, Option}
use cloudrail.Common.Table.{exists, find, first_by, update}
use cloudrail.Deployment.Claim.{
  Work, claim, claim_deployment, claim_due, claim_from, due_deployment, expire, previous_of,
}
use cloudrail.Deployment.Enqueue.{new_deployment, write_deployment}
use cloudrail.Deployment.Histories.Finality.{Stays, and_then, at_start, by_claim}
use cloudrail.Deployment.Histories.Finality.Laws.{Writes-final}
use cloudrail.Deployment.Jobs.{fresh_lease, is_due, is_expired, may_start, started}
use cloudrail.Deployment.Model.{Db, Deployment, Status, terminal}
use cloudrail.Deployment.Outside.{deployment_env}
use cloudrail.Deployment.Report.{by_id}
use cloudrail.Result.{Result, err, ok}
use cloudrail.Secrets.{open_sealed, seal}
use cloudrail.Tests.{outside, queued_row, queued_store, turn}

abbrev active_row : Deployment
active_row = record queued_row { id = 3; status = Status.active; created_at = 1 }

abbrev two_rows : Db
two_rows = record queued_store { deployments = active_row ∷ queued_row ∷ [] }

abbrev outcome : Result (Option Work × Db) → Option Work × Db
outcome (ok r) = r
outcome (err e) = (none, two_rows)

abbrev claimed : Option Work × Db
claimed = outcome (claim outside turn two_rows)

claim_accepted : claim outside turn two_rows ≡ ok (claimed.0, claimed.1)
unfolding claim claim_due claim_from expire claim_deployment due_deployment first_by exists update
    find deployment_env open_sealed seal may_start started is_due is_expired previous_of
    new_deployment fresh_lease terminal write_deployment
claim_accepted = refl

active_found : find (by_id 3) two_rows.deployments ≡ some active_row
unfolding find
active_found = refl

Writes-final_example :
    (e : Deployment) × (find (by_id 3) claimed.1.deployments ≡ some e) × Stays active_row e
unfolding terminal
Writes-final_example =
    Writes-final outside two_rows claimed.1
      (and_then at_start (by_claim turn two_rows claimed.1 claimed.0 claim_accepted)) 3 active_row
      active_found refl
