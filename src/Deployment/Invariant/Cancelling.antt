-- ===== src/Deployment/Invariant/Cancelling.antt =====
-- Cancellations keep the invariant.
use cloudrail.Common.{arith, ltb, refl, subst, true, ℕ, ◌≡◌}
use cloudrail.Common.Table.{count}
use cloudrail.Common.Table.Rows.{All-of}
use cloudrail.Deployment.Invariant.{Inv}
use cloudrail.Deployment.Invariant.Rows.{Ages, IsServed-update, rows, update-InvRows}
use cloudrail.Deployment.Model.{Db, Deployment, is_active, terminal}
use cloudrail.Deployment.Report.{cancelled, cancel, cancellable, cancelled}
use cloudrail.Result.{conflict, ok, ok-injective, require, then-eq-ok}

cancelled-Ages : (now : ℕ) (d : Deployment) → Ages d (cancelled now d)
unfolding cancelled terminal
cancelled-Ages now d = record {
  same_id = refl;
  same_service = refl;
  unfinished = λ t. ground arith;
  lease = λ l. l;
}

cancelled_id : (now : ℕ) (d : Deployment) → (cancelled now d).id ≡ d.id
unfolding cancelled
cancelled_id now d = refl

cancelled_service : (now : ℕ) (d : Deployment) → (cancelled now d).service_id ≡ d.service_id
unfolding cancelled
cancelled_service now d = refl

passive_cancelled :
    (now : ℕ) (d : Deployment)
    → is_active (cancelled now d).status ≡ true
    → is_active d.status ≡ true
unfolding cancelled
passive_cancelled now d a = ground arith

-- A cancellation that succeeds keeps the invariant of the store.
pub cancel-Inv : (now id : ℕ) (db : Db) {db' : Db} → cancel now id db ≡ ok db' → Inv db → Inv db'
unfolding cancel
cancel-Inv now id db h v =
    let (_, e) =
      then-eq-ok (require (ltb 0 (count (cancellable id) db.deployments)) conflict) _ h in
    let w =
      update-InvRows (cancellable id) (cancelled now) db.deployments
        (All-of (λ d. cancellable id d ≡ true → Ages d (cancelled now d))
          (λ d _. cancelled-Ages now d) db.deployments)
        (rows v) in
    subst Inv (ok-injective e) (record {
      served =
          IsServed-update db.services (cancellable id) (cancelled now) db.deployments
            (λ d. cancelled_id now d) (λ d. cancelled_service now d)
            (λ d _ a. passive_cancelled now d a) v.served;
      unique = w.unique;
      leased = w.leased;
      bounded = w.bounded;
    })
