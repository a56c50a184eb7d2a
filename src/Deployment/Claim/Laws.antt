-- ===== src/Deployment/Claim/Laws.antt =====
-- What Claim hands out, and what becomes of an agent that was overtaken.
use cloudrail.Common.{
  ==_iff, All, All-map, Bool-cases, List, Option, ap, inl, inr, sym, ◌==◌, ap₂, arith, false, none,
  of_some_eq, refl, some, subst, true, ℕ, ◌≡◌, ◌≢◌,
}
use cloudrail.Common.Table.{exists, exists-false, first_by, update}
use cloudrail.Common.Table.Rows.{All-first_by, All-of, All-update-to, first_by-least}
use cloudrail.Deployment.Claim.{
  Turn, Work, ahead_of, claim, claim_action, claim_cron, claim_cron_from, claim_deployment,
  claim_due, claim_from, claim_run, deployment_before, due_deployment, expire, found, older,
  schedule_run, start_deployment,
}
use cloudrail.Deployment.Jobs.{is_due, may_start}
use cloudrail.Deployment.Model.{Action, CronRun, Db, Deployment, RunStatus, Service, terminal}
use cloudrail.Deployment.Outside.{Outside}
use cloudrail.Deployment.Report.{by_id}
use cloudrail.Result.{>>=-eq-ok, Result, err, ok, ok-pair}

claim_run-run :
    (o : Outside) (t : Turn) (r : CronRun) (db : Db) {w : Work} {q : Db}
    → claim_run o t r db ≡ ok (w, q)
    → w.run ≢ none
unfolding claim_run
claim_run-run o t r db {w = w} h e =
    let given : w.run ≡ some (record r { status = RunStatus.running }) = ground arith in
    cc (given, e)

-- the deployment that was handed out, and the store after it
pub record IsClaimed (t : Turn) (db : Db) (w : Work) (q : Db) : Type 0 where
  pub due :
      first_by deployment_before
        (due_deployment t.now (expire t.now db).deployments)
        (expire t.now db).deployments
      ≡ some w.deployment
  pub may : may_start t.now w.deployment.lease ≡ true
  pub written : q ≡ record (expire t.now db) {
    deployments =
        update
          (by_id w.deployment.id)
          (start_deployment t.now t.token)
          (expire t.now db).deployments;
  }

claim_deployment_lem :
    (o : Outside) (t : Turn) (db : Db) (d : Deployment) {w : Work} {q : Db}
    → claim_deployment o t d db ≡ ok (w, q)
    → (w.deployment ≡ d)
      × (may_start t.now d.lease ≡ true)
      × (q ≡ record db {
        deployments = update (by_id d.id) (start_deployment t.now t.token) db.deployments;
      })
unfolding claim_deployment
claim_deployment_lem o t db d {w = w} {q = q} h = (ground arith, ground arith, ground arith)

found-ok : (m : Result (Work × Db)) {w : Work} {q : Db} → found m ≡ ok (some w, q) → m ≡ ok (w, q)
found-ok (ok (x, db)) h = let (a, b) = ok-pair h in ap₂ (λ x d. ok (x, d)) (of_some_eq a) b
found-ok (err e) h = absurd (cc)

cron_has_run :
    (o : Outside) (t : Turn) (db : Db) (r : Option CronRun) (s : Option Service) {w : Work} {q : Db}
    → claim_cron_from o t db r s ≡ ok (some w, q)
    → w.run ≢ none
unfolding claim_cron_from
cron_has_run o t db (some r) s h = claim_run-run o t r db (found-ok (claim_run o t r db) h)
cron_has_run o t db none (some s) h =
    let (p, _, h1) = >>=-eq-ok (schedule_run t s db) _ h in
    claim_run-run o t p.0 p.1 (found-ok (claim_run o t p.0 p.1) h1)
cron_has_run o t db none none h = absurd (cc)

claim_action-action :
    (o : Outside) (t : Turn) (a : Action) (db : Db) {w : Work} {q : Db}
    → claim_action o t a db ≡ ok (w, q)
    → w.action ≢ none
unfolding claim_action
claim_action-action o t a db {w = w} h e =
    let given : w.action ≡ some a = ground arith in cc (given, e)

claimed_from :
    (o : Outside) (t : Turn) (db : Db) (a : Option Action) (d : Option Deployment) {w : Work}
    {q : Db}
    → claim_from o t db a d ≡ ok (some w, q)
    → w.action ≡ none
    → w.run ≡ none
    → (d ≡ some w.deployment)
      × (may_start t.now w.deployment.lease ≡ true)
      × (q ≡ record db {
        deployments =
            update (by_id w.deployment.id) (start_deployment t.now t.token) db.deployments;
      })
unfolding claim_from claim_cron
claimed_from o t db (some a) d h na nr =
    absurd (claim_action-action o t a db (found-ok (claim_action o t a db) h) na)
claimed_from o t db none (some d) {w = w} {q = q} h na nr =
    let (e, m, p) = claim_deployment_lem o t db d (found-ok (claim_deployment o t d db) h) in
    subst
      (λ d.
        (some d ≡ some w.deployment)
        × (may_start t.now w.deployment.lease ≡ true)
        × (q ≡ record db {
          deployments =
              update (by_id w.deployment.id) (start_deployment t.now t.token) db.deployments;
        }))
      e (refl, rw e m, rw e p)
claimed_from o t db none none h na nr = absurd (cron_has_run o t db _ _ h nr)

pub claim-IsClaimed :
    (o : Outside) (t : Turn) (db : Db) {w : Work} {q : Db}
    → claim o t db ≡ ok (some w, q)
    → w.action ≡ none
    → w.run ≡ none
    → IsClaimed t db w q
unfolding claim claim_due
claim-IsClaimed o t db h na nr =
    let (due, may, written) = claimed_from o t (expire t.now db) _ _ h na nr in
    record { due = due; may = may; written = written }

older-asym : (t i u j : ℕ) → older t i u j ≡ true → older u j t i ≡ false
older-asym t i u j h = ground arith

older-chain :
    (t i u j v k : ℕ) → older t i u j ≡ false → older u j v k ≡ false → older t i v k ≡ false
older-chain t i u j v k h l = ground arith

-- A due deployment that was passed over has another of its service ahead of it, or is not older.
passed_over :
    (now : ℕ) (ds : List Deployment) (d e : Deployment)
    → (due_deployment now ds e ≡ true → deployment_before e d ≡ false)
    → terminal e.status ≡ false
    → is_due now e.lease ≡ true
    → deployment_before e d ≡ true
    → exists (ahead_of e) ds ≡ true
passed_over now ds d e k f due before = elim (Bool-cases (exists (ahead_of e) ds)) [
  | inl t ↦ t
  | inr t ↦ absurd (cc (before, k (rw (f, due, t) refl)))
]

-- Work goes out in the order of the queue. In the store after a claim of a deployment, no unfinished
-- deployment of its service was queued before it; and each older deployment, of whatever service,
-- that was unfinished and due after the expiry pass had an unfinished one of its own service, queued
-- before it, to wait for.
pub claim-InOrder :
    (o : Outside) (t : Turn) (db : Db) {w : Work} {q : Db}
    → claim o t db ≡ ok (some w, q)
    → w.action ≡ none
    → w.run ≡ none
    → All
        (λ e.
          e.service_id ≡ w.deployment.service_id
          → terminal e.status ≡ false
          → deployment_before e w.deployment ≡ false)
        q.deployments
      × All
          (λ e.
            terminal e.status ≡ false
            → is_due t.now e.lease ≡ true
            → deployment_before e w.deployment ≡ true
            → exists (ahead_of e) (expire t.now db).deployments ≡ true)
          (expire t.now db).deployments
claim-InOrder o t db {w = w} {q = q} h na nr =
    let c = claim-IsClaimed o t db h na nr in
    let d = w.deployment in
    let ds = (expire t.now db).deployments in
    let start = start_deployment t.now t.token in
    let (_, r) =
      All-first_by (λ d. Unit {0}) deployment_before (due_deployment t.now ds) ds
        (All-of (λ d. Unit {0}) (λ d. tt) ds) c.due in
    let ahead : All (λ e. ahead_of d e ≡ false) ds = exists-false (ahead_of d) ds (ground arith) in
    (
      subst (All Behind) (sym (ap (λ x. x.deployments) c.written)) (
          All-update-to (λ e. ahead_of d e ≡ false) Behind (by_id d.id) start ds
            (λ e k _. first e k) (λ e k _. first e k) ahead),
      All-map _ _ (λ e k f due b. passed_over t.now ds d e k f due b) ds
          (first_by-least deployment_before (due_deployment t.now ds)
            (λ x y. older-asym x.created_at x.id y.created_at y.id)
            (λ x y z. older-chain x.created_at x.id y.created_at y.id z.created_at z.id) ds c.due),
    )
  where
    Behind : Deployment → Type 0
    Behind e =
        e.service_id ≡ w.deployment.service_id
        → terminal e.status ≡ false
        → deployment_before e w.deployment ≡ false

    first : (e : Deployment) → ahead_of w.deployment e ≡ false → Behind e
    first e k s f =
        let same : (e.service_id == w.deployment.service_id) ≡ true = (==_iff _ _).1 s in
        ground (arith, k, same, f)
