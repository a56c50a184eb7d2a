-- ===== src/Deployment/Invariant/Rows.antt =====
-- Updates of the table of deployments, and of the services beside it, that keep the invariant.
use cloudrail.Common.{
  ℕ, ◌≤◌, ◌≡◌, refl, Bool, true, false, Option, none, some, List, [], ◌∷◌, ◌==◌, arith, All,
  Bool-cases, inl, inr, ◌∙◌, ap, sym,
}
use native.Mathlib.Nat.{le_trans}
use cloudrail.Common.Table.{find, count, update, updated, find-update}
use cloudrail.Common.Table.Rows.{All-update-to, count-update-le, All-zip}
use cloudrail.Deployment.Model.{Db, Service, Deployment, is_active, terminal}
use cloudrail.Deployment.Jobs.Laws.{IsLease}
use cloudrail.Deployment.Enqueue.{pending_of}
use cloudrail.Deployment.Report.{by_id}
use cloudrail.Deployment.Invariant.{service_by_id, active_id_of, active_of, IsServed, Inv}

-- A change of a row that keeps its identity, revives nothing, and keeps its attempts in order.
pub record Ages (x y : Deployment) : Type 0 where
  pub same_id : y.id ≡ x.id
  pub same_service : y.service_id ≡ x.service_id
  pub unfinished : terminal y.status ≡ false → terminal x.status ≡ false
  pub lease : IsLease x.lease → IsLease y.lease

-- The part of the invariant that does not look at the services.
pub record InvRows (ds : List Deployment) : Type 0 where
  pub unique : (id : ℕ) → count (by_id id) ds ≤ 1
  pub leased : All (λ d. IsLease d.lease) ds
  pub bounded : (service : ℕ) → count (pending_of service) ds ≤ 10

module _ (p : Deployment → Bool) (f : Deployment → Deployment) where
  same_ids :
      (ds : List Deployment) (id : ℕ)
      → All (λ d. p d ≡ true → Ages d (f d)) ds
      → All (λ d. p d ≡ true → by_id id (f d) ≡ true → by_id id d ≡ true) ds
  same_ids [] id h = tt
  same_ids (d ∷ ds) id (a, h) = ((λ t e. ground (arith, (a t).same_id)), same_ids ds id h)

  same_pending :
      (ds : List Deployment) (s : ℕ)
      → All (λ d. p d ≡ true → Ages d (f d)) ds
      → All (λ d. p d ≡ true → pending_of s (f d) ≡ true → pending_of s d ≡ true) ds
  same_pending [] s h = tt
  same_pending (d ∷ ds) s (a, h) =
      ((λ t e. ground (arith, (a t).same_service, (a t).unfinished)), same_pending ds s h)

  -- Rows that age keep their part of the invariant.
  pub update-InvRows :
      (ds : List Deployment)
      → All (λ d. p d ≡ true → Ages d (f d)) ds
      → InvRows ds
      → InvRows (update p f ds)
  update-InvRows ds h v = record {
    unique = λ id. le_trans (count-update-le (by_id id) p f ds (same_ids ds id h)) (v.unique id);
    leased =
        All-update-to (λ d. (p d ≡ true → Ages d (f d)) × IsLease d.lease) (λ d. IsLease d.lease) p
          f ds (λ d k t. (k.0 t).lease k.1) (λ d k _. k.1)
          (All-zip (λ d. p d ≡ true → Ages d (f d)) (λ d. IsLease d.lease) ds h v.leased);
    bounded =
        λ s. le_trans (count-update-le (pending_of s) p f ds (same_pending ds s h)) (v.bounded s);
  }

pub rows : {db : Db} → Inv db → InvRows db.deployments
rows v = record { unique = v.unique; leased = v.leased; bounded = v.bounded }

-- A change of the services that keeps their identifiers and active releases.
pub active_of-update :
    (p : Service → Bool) (f : Service → Service) (ss : List Service) (id : ℕ)
    → ((s : Service) → (f s).id ≡ s.id)
    → ((s : Service) → (f s).active_id ≡ s.active_id)
    → active_of (update p f ss) id ≡ active_of ss id
unfolding active_of
active_of-update p f ss id k a =
    ap active_id_of (find-update (service_by_id id) p f ss (λ s. ap (λ i. i == id) (k s)))
    ∙ kept (find (service_by_id id) ss)
  where
    kept : (o : Option Service) → active_id_of (updated p f o) ≡ active_id_of o
    kept none = refl
    kept (some s) = elim (Bool-cases (p s)) [ inl t ↦ rw t (a s) | inr t ↦ rw t refl ]

-- A served row stays served where the services name the same releases.
pub IsServed-services :
    (ss ts : List Service) (ds : List Deployment)
    → ((id : ℕ) → active_of ts id ≡ active_of ss id)
    → All (IsServed ss) ds
    → All (IsServed ts) ds
IsServed-services ss ts [] k h = tt
IsServed-services ss ts (d ∷ ds) k (a, h) =
    ((λ t. k d.service_id ∙ a t), IsServed-services ss ts ds k h)

-- An update after which no row is active that was not active before, under the same identity.
pub IsServed-update :
    (ss : List Service) (p : Deployment → Bool) (f : Deployment → Deployment) (ds : List Deployment)
    → ((d : Deployment) → (f d).id ≡ d.id)
    → ((d : Deployment) → (f d).service_id ≡ d.service_id)
    → ((d : Deployment) → p d ≡ true → is_active (f d).status ≡ true → is_active d.status ≡ true)
    → All (IsServed ss) ds
    → All (IsServed ss) (update p f ds)
IsServed-update ss p f ds i s a h =
    All-update-to (IsServed ss) (IsServed ss) p f ds
      (λ d k t e. ap (active_of ss) (s d) ∙ (k (a d t e) ∙ ap some (sym (i d)))) (λ d k _. k) h
