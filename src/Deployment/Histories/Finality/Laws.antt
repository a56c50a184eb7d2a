-- ===== src/Deployment/Histories/Finality/Laws.antt =====
-- A finished deployment stays finished.
use cloudrail.Common.{some, subst, sym, true, ℕ, ◌≡◌}
use cloudrail.Common.Table.{find}
use cloudrail.Deployment.Model.{Db, Deployment, terminal}
use cloudrail.Deployment.Outside.{Outside}
use cloudrail.Deployment.Report.{by_id}
use cloudrail.Deployment.Histories.Finality.{
  Keeps, Keeps-refl, Keeps-trans, Stays, Write, Writes, and_then, at_start, by_cancel, by_claim,
  by_enqueue, by_other, by_report,
}
use cloudrail.Deployment.Histories.Finality.Reporting.{cancel-Keeps, enqueue-Keeps, report-Keeps}
use cloudrail.Deployment.Histories.Finality.Claiming.{claim-Keeps}

Write-Keeps : {o : Outside} {db q : Db} → Write o db q → Keeps db.deployments q.deployments
Write-Keeps {o = o} (by_enqueue now r db q d h) = enqueue-Keeps o now r db q d h
Write-Keeps {o = o} (by_claim t db q w h) = claim-Keeps o t db q w h
Write-Keeps {o = o} (by_report now id r db q h) = report-Keeps o now id r db q h
Write-Keeps (by_cancel now id db q h) = cancel-Keeps now id db q h
Write-Keeps (by_other db q e) = subst (Keeps db.deployments) (sym e) (Keeps-refl db.deployments)

Writes-Keeps : {o : Outside} {db q : Db} → Writes o db q → Keeps db.deployments q.deployments
Writes-Keeps {db = db} at_start = Keeps-refl db.deployments
Writes-Keeps {db = db} {q = q} (and_then {p = p} ws w) =
    Keeps-trans db.deployments p.deployments q.deployments (Writes-Keeps ws) (Write-Keeps w)

-- Whatever sequence of queueing, claims, reports and
-- cancellations follows, with any operations between them that leave the table of deployments alone,
-- each operation run alone: a deployment that was active, failed or superseded is still found under
-- its identifier, with its service and its error, and with its status, unless that was active and is
-- superseded.
pub Writes-final :
    (o : Outside) (db q : Db)
    → Writes o db q
    → (id : ℕ) (d : Deployment) → find (by_id id) db.deployments ≡ some d
    → terminal d.status ≡ true
    → (e : Deployment) × (find (by_id id) q.deployments ≡ some e) × Stays d e
unfolding Keeps
Writes-final o db q ws id d f t = Writes-Keeps ws id d f t
