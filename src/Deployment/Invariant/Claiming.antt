-- ===== src/Deployment/Invariant/Claiming.antt =====
-- Handing out work keeps the invariant.
use cloudrail.Common.{
  ==_refl, All, All-map, List, Option, [], ap, arith, none, refl, some, subst, sym, true, ℕ, ◌∙◌,
  ◌∷◌, ◌≡◌, ◌≤◌,
}
use cloudrail.Common.Table.{count, find, first_by, update}
use cloudrail.Common.Table.Rows.{All-first_by, All-of, found_row, only_row}
use cloudrail.Deployment.Claim.{
  Turn, Work, claim, claim_action, claim_cron, claim_cron_from, claim_deployment, claim_due,
  claim_from, claim_run, deployment_before, due_deployment, expirable, expire, expired, found,
  schedule_run, service_with_id, start_deployment, with_next_run,
}
use cloudrail.Deployment.Cron.{cron_next}
use cloudrail.Deployment.Enqueue.{pending_of}
use cloudrail.Deployment.Invariant.{Inv, IsServed, active_of}
use cloudrail.Deployment.Invariant.Rows.{
  Ages, IsServed-services, IsServed-update, active_of-update, rows, update-InvRows,
}
use cloudrail.Deployment.Jobs.{may_start}
use cloudrail.Deployment.Jobs.Laws.{IsLease, started-IsLease}
use cloudrail.Deployment.Model.{Action, CronRun, Db, Deployment, Service, terminal}
use cloudrail.Deployment.Outside.{Outside}
use cloudrail.Deployment.Report.{by_id}
use cloudrail.Result.{>>=-eq-ok, Result, err, no_next_run, ok, ok-pair, or_else}

expired-Ages : (now : ℕ) (d : Deployment) → Ages d (expired now d)
unfolding terminal
expired-Ages now d = record {
  same_id = refl;
  same_service = refl;
  unfinished = λ t. absurd (cc t);
  lease = λ l. l;
}

-- The expiry pass keeps the invariant.
pub expire-Inv : (now : ℕ) (db : Db) → Inv db → Inv (expire now db)
unfolding expire
expire-Inv now db v =
    let w =
      update-InvRows (expirable now) (expired now) db.deployments
        (All-of (λ d. expirable now d ≡ true → Ages d (expired now d)) (λ d _. expired-Ages now d)
          db.deployments)
        (rows v) in
    record {
      served =
          IsServed-update db.services (expirable now) (expired now) db.deployments (λ d. refl)
            (λ d. refl) (λ d _ a. absurd (cc a)) v.served;
      unique = w.unique;
      leased = w.leased;
      bounded = w.bounded;
    }

start-Ages :
    (now token : ℕ) (d : Deployment)
    → may_start now d.lease ≡ true
    → Ages d (start_deployment now token d)
start-Ages now token d m = record {
  same_id = refl;
  same_service = refl;
  unfinished = λ t. t;
  lease = λ l. started-IsLease now token d.lease l m;
}

start-Inv :
    (now token : ℕ) (d : Deployment) (db : Db)
    → Inv db
    → find (by_id d.id) db.deployments ≡ some d
    → may_start now d.lease ≡ true
    → Inv (record db {
      deployments = update (by_id d.id) (start_deployment now token) db.deployments;
    })
start-Inv now token d db v f m =
    let w =
      update-InvRows (by_id d.id) (start_deployment now token) db.deployments
        (All-map (λ e. by_id d.id e ≡ true → e ≡ d)
          (λ e. by_id d.id e ≡ true → Ages e (start_deployment now token e))
          (λ e k t. start-Ages now token e (ap (λ x. may_start now x.lease) (k t) ∙ m))
          db.deployments (only_row (by_id d.id) db.deployments d (v.unique d.id) f))
        (rows v) in
    record {
      served =
          IsServed-update db.services (by_id d.id) (start_deployment now token) db.deployments
            (λ d. refl) (λ d. refl) (λ d _ a. a) v.served;
      unique = w.unique;
      leased = w.leased;
      bounded = w.bounded;
    }

of_found :
    {o : Result (Work × Db)} {w : Option Work} {q : Db}
    → found o ≡ ok (w, q)
    → (x : Work) × (o ≡ ok (x, q)) × (w ≡ some x)
of_found {o = ok (x, db)} h = let (a, b) = ok-pair h in (x, ap (λ d. ok (x, d)) b, sym a)
of_found {o = err e} h = absurd (cc)

-- A change of tables that the invariant does not look at.
module _ (db q : Db) (ds : q.deployments ≡ db.deployments) (v : Inv db) where
  pub beside-Inv : ((id : ℕ) → active_of q.services id ≡ active_of db.services id) → Inv q
  beside-Inv k = record {
    served =
        subst (All (IsServed q.services)) (sym ds)
          (IsServed-services db.services q.services db.deployments k v.served);
    unique = λ id. subst (λ x. count (by_id id) x ≤ 1) (sym ds) (v.unique id);
    leased = subst (All (λ d. IsLease d.lease)) (sym ds) v.leased;
    bounded = λ s. subst (λ x. count (pending_of s) x ≤ 10) (sym ds) (v.bounded s);
  }

module _ (o : Outside) (t : Turn) (db : Db) (v : Inv db) where
  claim_action-Inv : (a : Action) {w : Work} {q : Db} → claim_action o t a db ≡ ok (w, q) → Inv q
  unfolding claim_action
  claim_action-Inv a {q = q} h =
      beside-Inv db q (ground arith) v (λ id. ap (λ ss. active_of ss id) (ground arith))

  claim_run-Inv : (r : CronRun) {w : Work} {q : Db} → claim_run o t r db ≡ ok (w, q) → Inv q
  unfolding claim_run
  claim_run-Inv r {q = q} h =
      beside-Inv db q (ground arith) v (λ id. ap (λ ss. active_of ss id) (ground arith))

  claim_deployment-Inv :
      (d : Deployment) {w : Work} {q : Db}
      → find (by_id d.id) db.deployments ≡ some d
      → claim_deployment o t d db ≡ ok (w, q)
      → Inv q
  unfolding claim_deployment
  claim_deployment-Inv d {q = q} f h =
      let q_eq : q ≡ record db {
        deployments = update (by_id d.id) (start_deployment t.now t.token) db.deployments;
      } =
        ground arith in
      let m : may_start t.now d.lease ≡ true = ground arith in
      subst Inv (sym q_eq) (start-Inv t.now t.token d db v f m)

  schedule_run-Inv : (s : Service) {r : CronRun} {q : Db} → schedule_run t s db ≡ ok (r, q) → Inv q
  unfolding schedule_run
  schedule_run-Inv s {q = q} h =
      let (at, _, h1) = >>=-eq-ok (or_else s.cron_next_run no_next_run) _ h in
      let (next, _, h2) = >>=-eq-ok (cron_next t.parse s.cron_schedule t.now) _ h1 in
      let written : q.services ≡ update (service_with_id s.id) (with_next_run next) db.services =
        ground arith in
      beside-Inv db q (ground arith) v (λ id.
        ap (λ ss. active_of ss id) written
        ∙ active_of-update (service_with_id s.id) (with_next_run next) db.services id (λ s. refl)
            (λ s. refl))

claim_cron_from-Inv :
    (o : Outside) (t : Turn) (db : Db) (r : Option CronRun) (s : Option Service) {w : Option Work}
    {q : Db}
    → Inv db
    → claim_cron_from o t db r s ≡ ok (w, q)
    → Inv q
unfolding claim_cron_from
claim_cron_from-Inv o t db (some r) s v h =
    let (x, e, _) = of_found {o = claim_run o t r db} h in claim_run-Inv o t db v r e
claim_cron_from-Inv o t db none (some s) v h =
    let (p, e, h1) = >>=-eq-ok (schedule_run t s db) _ h in
    let (x, e1, _) = of_found {o = claim_run o t p.0 p.1} h1 in
    claim_run-Inv o t p.1 (schedule_run-Inv o t db v s e) p.0 e1
claim_cron_from-Inv o t db none none v h = subst Inv (ok-pair h).1 v

claim_from-Inv :
    (o : Outside) (t : Turn) (db : Db) (a : Option Action) (d : Option Deployment) {w : Option Work}
    {q : Db}
    → Inv db
    → ((e : Deployment) → d ≡ some e → find (by_id e.id) db.deployments ≡ some e)
    → claim_from o t db a d ≡ ok (w, q)
    → Inv q
unfolding claim_from claim_cron
claim_from-Inv o t db (some a) d v k h =
    let (x, e, _) = of_found {o = claim_action o t a db} h in claim_action-Inv o t db v a e
claim_from-Inv o t db none (some d) v k h =
    let (x, e, _) = of_found {o = claim_deployment o t d db} h in
    claim_deployment-Inv o t db v d (k d refl) e
claim_from-Inv o t db none none v k h = claim_cron_from-Inv o t db _ _ v h

-- The deployment that a query orders first is the one that its identifier finds.
pub first-found :
    (now : ℕ) (db : Db)
    → Inv db
    → (e : Deployment)
    → first_by deployment_before (due_deployment now db.deployments) db.deployments ≡ some e
    → find (by_id e.id) db.deployments ≡ some e
first-found now db v e f =
    (All-first_by (λ d. find (by_id d.id) db.deployments ≡ some d) deployment_before
      (due_deployment now db.deployments) db.deployments
      (each db.deployments (λ d. found_row (by_id d.id) db.deployments (v.unique d.id))) f).0
  where
    each :
        (ds : List Deployment)
        → ((d : Deployment)
            → All (λ y. by_id d.id y ≡ true → find (by_id d.id) db.deployments ≡ some y) ds)
        → All (λ d. find (by_id d.id) db.deployments ≡ some d) ds
    each [] k = tt
    each (d ∷ ds) k = ((k d).0 (==_refl d.id), each ds (λ x. (k x).1))

-- A claim, whatever it hands out, keeps the invariant of the store.
pub claim-Inv :
    (o : Outside) (t : Turn) (db : Db) {w : Option Work} {q : Db}
    → claim o t db ≡ ok (w, q)
    → Inv db
    → Inv q
unfolding claim claim_due
claim-Inv o t db h v =
    let v' = expire-Inv t.now db v in
    claim_from-Inv o t (expire t.now db) _ _ v' (first-found t.now (expire t.now db) v') h
