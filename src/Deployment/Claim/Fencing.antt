-- ===== src/Deployment/Claim/Fencing.antt =====
-- An agent that was overtaken by a later claim.
use cloudrail.Common.{==_refl, Bool, ap, arith, none, refl, some, ℕ, ◌&&◌, ◌∙◌, ◌≡◌, ◌≢◌}
use cloudrail.Common.Table.{find, find-update, updated}
use cloudrail.Deployment.Claim.{Turn, Work, claim, expire, start_deployment}
use cloudrail.Deployment.Claim.Laws.{IsClaimed, claim-IsClaimed}
use cloudrail.Deployment.Invariant.{Inv}
use cloudrail.Deployment.Invariant.Claiming.{expire-Inv, first-found}
use cloudrail.Deployment.Jobs.{check_attempt, started}
use cloudrail.Deployment.Model.{Db, Lease, Report, Status, is_active}
use cloudrail.Deployment.Outside.{Outside}
use cloudrail.Deployment.Report.{by_id, report}
use cloudrail.Deployment.Report.Laws.{report-checked}
use cloudrail.Result.{ok}

-- the row after a claim holds the token of the claim
claimed_row :
    (o : Outside) (t : Turn) (db : Db) {w : Work} {q : Db}
    → Inv db
    → IsClaimed t db w q
    → find (by_id w.deployment.id) q.deployments
      ≡ some (start_deployment t.now t.token w.deployment)
claimed_row o t db {w = w} {q = q} v c =
    let d = w.deployment in
    let ds = (expire t.now db).deployments in
    let f = first-found t.now (expire t.now db) (expire-Inv t.now db v) d c.due in
    rw c.written (
      find-update (by_id d.id) (by_id d.id) (start_deployment t.now t.token) ds (λ x. refl)
      ∙ (ap (updated (by_id d.id) (start_deployment t.now t.token)) f ∙ rw (==_refl d.id) refl))

stale_refused :
    (now : ℕ) (now' token given : ℕ) (barred : Bool) (l : Lease)
    → given ≢ token
    → check_attempt now' (some given) barred (started now token l) ≢ ok tt
unfolding check_attempt started
stale_refused now now' token given barred l n h = n (ground arith)

-- After a claim hands out a deployment under a new token, in a store that keeps the invariant, no
-- report of a status succeeds on that deployment under another token, whatever the reporting agent
-- says and whenever it does.
pub claim-report-Fenced :
    (o : Outside) (t : Turn) (db : Db) (w : Work) (q : Db)
    → Inv db
    → claim o t db ≡ ok (some w, q)
    → w.action ≡ none
    → w.run ≡ none
    → (now : ℕ) (r : Report) (status : Status) (given : ℕ) → r.status ≡ some status
    → r.attempt ≡ some given
    → given ≢ t.token
    → (q' : Db) → report o now w.deployment.id r q ≢ ok q'
claim-report-Fenced o t db w q v h na nr now r status given rs ra n q' k =
    let c = claim-IsClaimed o t db h na nr in
    let row = claimed_row o t db v c in
    let k' =
      report-checked o now w.deployment.id r q status (start_deployment t.now t.token w.deployment)
        row rs k in
    stale_refused t.now now t.token given (is_active status && w.deployment.cancel_requested)
      w.deployment.lease n (rw ra at k')
