-- ===== src/Deployment/Invariant/Superseding.antt =====
-- What a release that goes active makes of the rows of the one before it.
use cloudrail.Common.{
  ==_iff, All, All-map, Bool-cases, List, Option, ap, arith, false, if◌then◌else◌, inl, inr, none,
  of_some_eq, refl, some, subst, sym, true, ℕ, ◌==◌, ◌∙◌, ◌≡◌, ◌⊎◌,
}
use cloudrail.Common.Table.{find, find-update, find_sound, update, updated}
use cloudrail.Common.Table.Rows.{All-of, All-update-to}
use cloudrail.Common.Text.{Text}
use cloudrail.Deployment.Invariant.{IsServed, active_id_of, active_of, service_by_id}
use cloudrail.Deployment.Invariant.Rows.{Ages, InvRows, update-InvRows}
use cloudrail.Deployment.Model.{Deployment, Service, Status, is_active, terminal}
use cloudrail.Deployment.Report.{activated, active_with, reported, supersede, to_superseded}

-- Which release a service names once a deployment of `service` was activated.
pub active_of-activated :
    (ss : List Service) (service release id : ℕ) (s : Service)
    → find (service_by_id service) ss ≡ some s
    → active_of (update (service_by_id service) (activated release) ss) id
      ≡ (if service == id then some release else active_of ss id)
unfolding active_of
active_of-activated ss service release id s f =
    ap active_id_of
      (find-update (service_by_id id) (service_by_id service) (activated release) ss (λ s. refl))
    ∙ by_case (Bool-cases (service == id))
  where
    hit : service ≡ id → find (service_by_id id) ss ≡ some s
    hit e = subst (λ i. find (service_by_id i) ss ≡ some s) e f

    missed :
        (o : Option Service)
        → ((t : Service) → o ≡ some t → service_by_id service t ≡ false)
        → active_id_of (updated (service_by_id service) (activated release) o) ≡ active_id_of o
    missed none k = refl
    missed (some t) k = rw (k t refl) refl

    by_case :
        ((service == id) ≡ true) ⊎ ((service == id) ≡ false)
        → active_id_of
            (updated (service_by_id service) (activated release) (find (service_by_id id) ss))
          ≡ (if service == id then some release else active_id_of (find (service_by_id id) ss))
    by_case (inl t) =
        rw t
          (rw (hit ((==_iff service id).0 t)) (rw (find_sound (service_by_id service) ss f) refl))
    by_case (inr t) = rw t (
        missed (find (service_by_id id) ss)
          (λ u e. ground (arith, find_sound (service_by_id id) ss {x = u} e)))

pub reported-Ages :
    (now : ℕ) (status : Status) (message logs : Text) (d : Deployment)
    → terminal d.status ≡ false
    → Ages d (reported now status message logs d)
reported-Ages now status message logs d t = record {
  same_id = refl;
  same_service = refl;
  unfinished = λ _. t;
  lease = λ l. l;
}

superseded-Ages : (now : ℕ) (d : Deployment) → Ages d (to_superseded now d)
unfolding terminal
superseded-Ages now d = record {
  same_id = refl;
  same_service = refl;
  unfinished = λ e. absurd (cc e);
  lease = λ l. l;
}

pub supersede-InvRows :
    (now : ℕ) (o : Option ℕ) (ds : List Deployment) → InvRows ds → InvRows (supersede now o ds)
unfolding supersede
supersede-InvRows now none ds v = v
supersede-InvRows now (some id) ds v =
    update-InvRows (active_with id) (to_superseded now) ds
      (All-of (λ d. active_with id d ≡ true → Ages d (to_superseded now d))
        (λ d _. superseded-Ages now d) ds)
      v

-- What is left of a row once the release that its service named was superseded.
abbrev pub IsLeft : List Service → ℕ → Deployment → Type 0
IsLeft ss service d =
    IsServed ss d × (is_active d.status ≡ true → (d.service_id == service) ≡ false)

pub supersede-IsLeft :
    (now : ℕ) (ss : List Service) (service : ℕ) (o : Option ℕ) (ds : List Deployment)
    → active_of ss service ≡ o
    → All (IsServed ss) ds
    → All (IsLeft ss service) (supersede now o ds)
unfolding supersede
supersede-IsLeft now ss service none ds e h =
    All-map (IsServed ss) (IsLeft ss service)
      (λ d s. (s, λ a. elsewhere d (s a) (Bool-cases (d.service_id == service)))) ds h
  where
    elsewhere :
        (d : Deployment)
        → active_of ss d.service_id ≡ some d.id
        → ((d.service_id == service) ≡ true) ⊎ ((d.service_id == service) ≡ false)
        → (d.service_id == service) ≡ false
    elsewhere d s (inl t) =
        absurd (cc (s, e, ap (active_of ss) ((==_iff d.service_id service).0 t)))
    elsewhere d s (inr t) = t
supersede-IsLeft now ss service (some old) ds e h =
    All-update-to (IsServed ss) (IsLeft ss service) (active_with old) (to_superseded now) ds
      (λ d s t. ((λ a. absurd (cc a)), λ a. absurd (cc a)))
      (λ d s t. (s, λ a. elsewhere d (s a) a t (Bool-cases (d.service_id == service)))) h
  where
    elsewhere :
        (d : Deployment)
        → active_of ss d.service_id ≡ some d.id
        → is_active d.status ≡ true
        → active_with old d ≡ false
        → ((d.service_id == service) ≡ true) ⊎ ((d.service_id == service) ≡ false)
        → (d.service_id == service) ≡ false
    elsewhere d s a n (inl t) =
        let same = ap (active_of ss) ((==_iff d.service_id service).0 t) in
        let ids = of_some_eq (sym e ∙ (sym same ∙ s)) in
        absurd (cc (n, a, (==_iff d.id old).1 (sym ids)))
    elsewhere d s a n (inr t) = t
