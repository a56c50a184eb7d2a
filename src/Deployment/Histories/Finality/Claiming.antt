-- ===== src/Deployment/Histories/Finality/Claiming.antt =====
-- A claim leaves the finished deployments.
use cloudrail.Common.{Option, ap, arith, inl, none, refl, some, subst, sym, true, ◌≡◌}
use cloudrail.Common.Table.{update}
use cloudrail.Deployment.Claim.{
  found, claim_cron, claim_due, Turn, Work, claim, claim_action, claim_cron_from, claim_deployment,
  claim_from, claim_run, expirable, expire, expired, schedule_run, start_deployment,
}
use cloudrail.Deployment.Model.{Action, CronRun, Service, Db, Deployment, terminal}
use cloudrail.Deployment.Outside.{Outside}
use cloudrail.Deployment.Report.{by_id}
use cloudrail.Result.{ok, Result, err, ok-pair, >>=-eq-ok}
use cloudrail.Deployment.Histories.Finality.{Keeps, Keeps-refl, Keeps-trans, update-Keeps}

module _ (o : Outside) (t : Turn) where
  found-Keeps :
      (db : Db) (m : Result (Work × Db)) {w : Option Work} {q : Db}
      → ((x : Work) (p : Db) → m ≡ ok (x, p) → Keeps db.deployments p.deployments)
      → found m ≡ ok (w, q)
      → Keeps db.deployments q.deployments
  found-Keeps db (ok (x, p)) k h =
      subst (λ y. Keeps db.deployments y.deployments) (ok-pair h).1 (k x p refl)
  found-Keeps db (err e) k h = absurd (cc)

  left-Keeps : (db q : Db) → q.deployments ≡ db.deployments → Keeps db.deployments q.deployments
  left-Keeps db q e = subst (Keeps db.deployments) (sym e) (Keeps-refl db.deployments)

  claim_action-Keeps :
      (a : Action) (db : Db) (w : Work) (q : Db)
      → claim_action o t a db ≡ ok (w, q)
      → Keeps db.deployments q.deployments
  unfolding claim_action
  claim_action-Keeps a db w q h = left-Keeps db q (ground arith)

  claim_run-Keeps :
      (r : CronRun) (db : Db) (w : Work) (q : Db)
      → claim_run o t r db ≡ ok (w, q)
      → Keeps db.deployments q.deployments
  unfolding claim_run
  claim_run-Keeps r db w q h = left-Keeps db q (ground arith)

  claim_deployment-Keeps :
      (d : Deployment) (db : Db) (w : Work) (q : Db)
      → claim_deployment o t d db ≡ ok (w, q)
      → Keeps db.deployments q.deployments
  unfolding claim_deployment
  claim_deployment-Keeps d db w q h =
      let e : q.deployments ≡ update (by_id d.id) (start_deployment t.now t.token) db.deployments =
        ground arith in
      subst (Keeps db.deployments) (sym e) (
        update-Keeps (by_id d.id) (start_deployment t.now t.token) db.deployments (λ d. refl)
          (λ _ d _ _ _. (refl, refl, inl refl)))

  schedule_run-deployments :
      (s : Service) (db : Db) (r : CronRun) (q : Db)
      → schedule_run t s db ≡ ok (r, q)
      → q.deployments ≡ db.deployments
  unfolding schedule_run
  schedule_run-deployments s db r q h = ground arith

  claim_cron_from-Keeps :
      (db : Db) (r : Option CronRun) (s : Option Service) {w : Option Work} {q : Db}
      → claim_cron_from o t db r s ≡ ok (w, q)
      → Keeps db.deployments q.deployments
  unfolding claim_cron_from
  claim_cron_from-Keeps db (some r) s h =
      found-Keeps db (claim_run o t r db) (λ x p e. claim_run-Keeps r db x p e) h
  claim_cron_from-Keeps db none (some s) {q = q} h =
      let (p, e, h1) = >>=-eq-ok (schedule_run t s db) _ h in
      subst (λ ds. Keeps ds q.deployments) (schedule_run-deployments s db p.0 p.1 e)
        (found-Keeps p.1 (claim_run o t p.0 p.1) (λ x y e. claim_run-Keeps p.0 p.1 x y e) h1)
  claim_cron_from-Keeps db none none {q = q} h =
      left-Keeps db q (ap (λ x. x.deployments) (sym (ok-pair h).1))

  claim_from-Keeps :
      (db : Db) (a : Option Action) (d : Option Deployment) {w : Option Work} {q : Db}
      → claim_from o t db a d ≡ ok (w, q)
      → Keeps db.deployments q.deployments
  unfolding claim_from claim_cron
  claim_from-Keeps db (some a) d h =
      found-Keeps db (claim_action o t a db) (λ x p e. claim_action-Keeps a db x p e) h
  claim_from-Keeps db none (some d) h =
      found-Keeps db (claim_deployment o t d db) (λ x p e. claim_deployment-Keeps d db x p e) h
  claim_from-Keeps db none none h = claim_cron_from-Keeps db _ _ h

  expire-Keeps : (db : Db) → Keeps db.deployments (expire t.now db).deployments
  unfolding expire
  expire-Keeps db =
      update-Keeps (expirable t.now) (expired t.now) db.deployments (λ d. refl)
        (λ _ d _ k f. absurd (unfinished d k f))
    where
      unfinished : (d : Deployment) → expirable t.now d ≡ true → terminal d.status ≡ true → ⊥
      unfinished d k f = ground arith

  pub claim-Keeps :
      (db q : Db) (w : Option Work) → claim o t db ≡ ok (w, q) → Keeps db.deployments q.deployments
  unfolding claim claim_due
  claim-Keeps db q w h =
      Keeps-trans db.deployments (expire t.now db).deployments q.deployments (expire-Keeps db)
        (claim_from-Keeps (expire t.now db) _ _ h)
