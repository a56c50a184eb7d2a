-- ===== src/Deployment/Invariant/Queueing.antt =====
-- Queueing a deployment keeps the invariant.
use cloudrail.Common.{
  ℕ, ◌+◌, ◌≤◌, ◌<◌, ◌≡◌, refl, sym, ◌∙◌, ap, subst, Bool, true, false, [], ◌∷◌, ◌++◌, ◌==◌, arith,
  All-append, if◌then◌else◌, Bool-cases, inl, inr, ==_iff,
}
use cloudrail.Common.Table.{count, count-append}
use cloudrail.Result.{ok}
use cloudrail.Deployment.Model.{Db, Deployment, Settings, queued, is_active}
use cloudrail.Deployment.Jobs.Laws.{IsLease, fresh_lease-IsLease}
use cloudrail.Deployment.Outside.{Outside}
use cloudrail.Deployment.Enqueue.{
  Request, pending_of, with_settings, new_deployment, write_deployment, enqueue,
}
use cloudrail.Deployment.Enqueue.Laws.{IsInserted, enqueue_cases}
use cloudrail.Deployment.Report.{by_id}
use cloudrail.Deployment.Invariant.{service_by_id, IsServed, Inv}
use cloudrail.Deployment.Invariant.Rows.{active_of-update, IsServed-services}

-- A new row that is queued, with an identifier of its own, where the service has room for it.
module _ (db : Db) (service : ℕ) (c : Settings) (d : Deployment) where
  write_unique :
      count (by_id d.id) db.deployments ≡ 0
      → (id : ℕ) → count (by_id id) db.deployments ≤ 1
      → count (by_id id) (db.deployments ++ d ∷ []) ≤ 1
  write_unique z id h = elim (Bool-cases (d.id == id)) [
    | inl t ↦
        let e = subst (λ i. count (by_id i) db.deployments ≡ 0) ((==_iff d.id id).0 t) z in
        rw (count-append (by_id id) db.deployments d) (rw t (omega arith))
    | inr t ↦ rw (count-append (by_id id) db.deployments d) (rw t (omega arith))
  ]

  write-bounded :
      d.service_id ≡ service
      → count (pending_of service) db.deployments < 10
      → (s : ℕ) → count (pending_of s) db.deployments ≤ 10
      → count (pending_of s) (db.deployments ++ d ∷ []) ≤ 10
  write-bounded same room s h = elim (Bool-cases (d.service_id == s)) [
    | inl t ↦
        let e =
          subst (λ i. count (pending_of i) db.deployments < 10)
            (sym same ∙ (==_iff d.service_id s).0 t) room in
        rw (count-append (pending_of s) db.deployments d) (at_most_one (pending_of s d) e)
    | inr t ↦ rw (count-append (pending_of s) db.deployments d) (rw t (omega arith))
  ]
    where
      at_most_one : {n : ℕ} (b : Bool) → n < 10 → n + (if b then 1 else 0) ≤ 10
      at_most_one true l = omega arith
      at_most_one false l = omega arith

  write_deployment-Inv :
      count (by_id d.id) db.deployments ≡ 0
      → d.service_id ≡ service
      → d.status ≡ queued
      → IsLease d.lease
      → count (pending_of service) db.deployments < 10
      → Inv db
      → Inv (write_deployment db service c d)
  unfolding write_deployment
  write_deployment-Inv fresh same status lease room v = record {
    served =
        IsServed-services db.services _ (db.deployments ++ d ∷ [])
          (λ id.
            active_of-update (service_by_id service) (with_settings c) db.services id (λ s. refl)
              (λ s. refl))
          (All-append (IsServed db.services) db.deployments (d ∷ []) v.served
            ((λ a. absurd (cc (a, ap is_active status))), tt));
    unique = λ id. write_unique fresh id (v.unique id);
    leased = All-append (λ d. IsLease d.lease) db.deployments (d ∷ []) v.leased (lease, tt);
    bounded = λ s. write-bounded same room s (v.bounded s);
  }

inserted-Inv :
    (o : Outside) (now : ℕ) (r : Request) (db : Db) {d : Deployment} {db' : Db}
    → IsInserted o now r db d db'
    → Inv db
    → Inv db'
unfolding new_deployment
inserted-Inv o now r db {d = d} q v = subst Inv (sym q.written) (
    write_deployment-Inv db r.service_id _ d
      (subst (λ e. count (by_id e.id) db.deployments ≡ 0) (sym q.row) q.fresh)
      (ap (λ e. e.service_id) q.row) (ap (λ e. e.status) q.row)
      (subst (λ e. IsLease e.lease) (sym q.row) (fresh_lease-IsLease now)) q.room v)

-- A request for a deployment, new or repeated, keeps the invariant of the store.
pub enqueue-Inv :
    (o : Outside) (now : ℕ) (r : Request) (db : Db) {d : Deployment} {db' : Db}
    → enqueue o now r db ≡ ok (d, db')
    → Inv db
    → Inv db'
enqueue-Inv o now r db h v = elim (enqueue_cases o now r db h) [
  | inl q ↦ inserted-Inv o now r db q v
  | inr q ↦ subst Inv (sym q.unchanged) v
]
