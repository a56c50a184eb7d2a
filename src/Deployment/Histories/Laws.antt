-- ===== src/Deployment/Histories/Laws.antt =====
-- What holds after every history of the store.
use cloudrail.Common.{
  All, All-map, List, [], ap, arith, of_some_eq, refl, subst, sym, true, ℕ, ◌∙◌, ◌∷◌, ◌≡◌, ◌≤◌,
}
use cloudrail.Common.Table.{count}
use cloudrail.Deployment.Actions.{enqueue_action, report_action}
use cloudrail.Deployment.Claim.{claim}
use cloudrail.Deployment.Cron.{report_run, save_schedule}
use cloudrail.Deployment.Creation.{Registry, create_compute, set_domain}
use cloudrail.Deployment.Databases.{Site, create_database}
use cloudrail.Deployment.Enqueue.{enqueue, pending_of}
use cloudrail.Deployment.Histories.{
  Call, acts, adds_database, adds_service, adds_volume, after, attaches, binds, cancels, claims,
  detaches, enqueues, names_host, networks, of_registry, of_site, reports, reports_action,
  reports_run, resizes, run, schedules, second, site_of, step, tunes, of_hosts, Text,
}
use cloudrail.Deployment.Invariant.{Inv, IsServed, active_of}
use cloudrail.Deployment.Invariant.Cancelling.{cancel-Inv}
use cloudrail.Deployment.Invariant.Claiming.{claim-Inv}
use cloudrail.Deployment.Invariant.Creating.{
  bind_database-Inv, create_compute-Inv, create_database-Inv,
}
use cloudrail.Deployment.Invariant.Settings.{
  attach_volume-Inv, create_volume-Inv, detach_volume-Inv, save_networking-Inv, save_resources-Inv,
  save_runtime-Inv,
}
use cloudrail.Deployment.Networking.{save_networking, save_runtime}
use cloudrail.Deployment.Volumes.{attach_volume, create_volume, detach_volume, save_resources}
use cloudrail.Deployment.Invariant.Others.{
  enqueue_action-Inv, report_action-Inv, report_run-Inv, save_schedule-Inv,
}
use cloudrail.Deployment.Invariant.Queueing.{enqueue-Inv}
use cloudrail.Deployment.Invariant.Reporting.{report-Inv}
use cloudrail.Deployment.Jobs.Laws.{IsLease}
use cloudrail.Deployment.Model.{Db, Deployment, Service, is_active}
use cloudrail.Deployment.Outside.{Outside}
use cloudrail.Deployment.Report.{by_id, cancel, report}
use cloudrail.Result.{Result, err, ok, ok-injective}

after-Inv : (db : Db) (m : Result Db) → Inv db → ((q : Db) → m ≡ ok q → Inv q) → Inv (after db m)
after-Inv db (ok q) v k = k q refl
after-Inv db (err e) v k = v

second_lem {ℓ} :
    {A : Type ℓ} (m : Result (A × Db)) {q : Db} → second m ≡ ok q → (a : A) × (m ≡ ok (a, q))
second_lem (ok (a, db)) h = (a, ap (λ d. ok (a, d)) (ok-injective h))
second_lem (err e) h = absurd (cc)

of_registry_lem {ℓ} :
    {A : Type ℓ} (m : Result (A × Registry)) {q : Db}
    → of_registry m ≡ ok q
    → (p : A × Registry) × (m ≡ ok p) × (p.1.main ≡ q)
of_registry_lem (ok p) h = (p, refl, ok-injective h)
of_registry_lem (err e) h = absurd (cc)

of_site_lem {ℓ} :
    {A : Type ℓ} (m : Result (A × Site)) {q : Db}
    → of_site m ≡ ok q
    → (p : A × Site) × (m ≡ ok p) × (p.1.workspace.main ≡ q)
of_site_lem (ok p) h = (p, refl, ok-injective h)
of_site_lem (err e) h = absurd (cc)

of_hosts_lem :
    (m : Result Registry) {q : Db} → of_hosts m ≡ ok q → (p : Registry) × (m ≡ ok p) × (p.main ≡ q)
of_hosts_lem (ok p) h = (p, refl, ok-injective h)
of_hosts_lem (err e) h = absurd (cc)

set_domain-main :
    (dashboard : Text) (id : ℕ) (host : Text) (r : Registry) {p : Registry}
    → set_domain dashboard id host r ≡ ok p
    → p.main ≡ r.main
unfolding set_domain
set_domain-main dashboard id host r h = ground arith

step-Inv : (o : Outside) (db : Db) (c : ℕ × Call) → Inv db → Inv (step o db c)
unfolding step
step-Inv o db (now, enqueues r) v =
    after-Inv db (second (enqueue o now r db)) v
      λ q e. enqueue-Inv o now r db (second_lem (enqueue o now r db) e).1 v
step-Inv o db (now, cancels id) v =
    after-Inv db (cancel now id db) v λ q e. cancel-Inv now id db e v
step-Inv o db (now, reports id r) v =
    after-Inv db (report o now id r db) v λ q e. report-Inv o now id r db e v
step-Inv o db (now, claims t) v =
    after-Inv db (second (claim o t db)) v λ q e. claim-Inv o t db (second_lem (claim o t db) e).1 v
step-Inv o db (now, acts fresh i kind backup) v =
    after-Inv db (second (enqueue_action now fresh i kind backup db)) v λ q e.
      enqueue_action-Inv now fresh i kind backup db
        (second_lem (enqueue_action now fresh i kind backup db) e).1 v
step-Inv o db (now, reports_action id attempt status message) v =
    after-Inv db (report_action now id attempt status message db) v
      λ q e. report_action-Inv now id attempt status message db e v
step-Inv o db (now, schedules parse id schedule) v =
    after-Inv db (save_schedule parse now id schedule db) v
      λ q e. save_schedule-Inv parse now id schedule db e v
step-Inv o db (now, reports_run id r) v =
    after-Inv db (report_run o now id r db) v λ q e. report_run-Inv o now id r db e v
step-Inv o db (now, adds_volume fresh known project environment name) v =
    after-Inv db (second (create_volume fresh known project environment name db)) v λ q e.
      create_volume-Inv fresh known project environment name db
        (second_lem (create_volume fresh known project environment name db) e).1 v
step-Inv o db (now, attaches volume service mount) v =
    after-Inv db (attach_volume volume service mount db) v
      λ q e. attach_volume-Inv volume service mount db e v
step-Inv o db (now, detaches volume) v =
    after-Inv db (detach_volume volume db) v λ q e. detach_volume-Inv volume db e v
step-Inv o db (now, resizes names id memory cpu mount) v =
    after-Inv db (save_resources names id memory cpu mount db) v
      λ q e. save_resources-Inv names id memory cpu mount db e v
step-Inv o db (now, networks id public port) v =
    after-Inv db (second (save_networking id public port db)) v λ q e.
      save_networking-Inv id public port db (second_lem (save_networking id public port db) e).1 v
step-Inv o db (now, tunes id r) v =
    after-Inv db (second (save_runtime id r db)) v
      λ q e. save_runtime-Inv id r db (second_lem (save_runtime id r db) e).1 v
step-Inv o db (now, adds_service names fresh domain project spec r) v =
    let made = create_compute names fresh domain project spec (record r { main = db }) in
    after-Inv db (of_registry made) v λ q e.
      let (s, k, m) = of_registry_lem made e in
      subst Inv m (create_compute-Inv names fresh domain project spec (record r { main = db }) k v)
step-Inv o db (now, adds_database names d project name environment key site) v =
    let made = create_database o names d project name environment key (site_of db site) in
    after-Inv db (of_site made) v λ q e.
      let (s, k, m) = of_site_lem made e in
      subst Inv m (create_database-Inv o names d project name environment key (site_of db site) k v)
step-Inv o db (now, binds names nonce database target name w) v =
    bind_database-Inv o names nonce database target name (record w { main = db }) v
step-Inv o db (now, names_host dashboard id host r) v =
    let named = set_domain dashboard id host (record r { main = db }) in
    after-Inv db (of_hosts named) v λ q e.
      let (p, k, m) = of_hosts_lem named e in
      subst Inv (sym (set_domain-main dashboard id host (record r { main = db }) k) ∙ m) v

run_from-Inv : (o : Outside) (db : Db) (cs : List (ℕ × Call)) → Inv db → Inv (run o db cs)
unfolding run
run_from-Inv o db [] v = v
run_from-Inv o db (c ∷ cs) v = run_from-Inv o (step o db c) cs (step-Inv o db c v)

pub empty-Inv : (db : Db) → db.deployments ≡ [] → Inv db
unfolding count
empty-Inv db e = record {
  served = subst (All (IsServed db.services)) (sym e) tt;
  unique = λ id. subst (λ ds. count (by_id id) ds ≤ 1) (sym e) (omega arith);
  leased = subst (All (λ d. IsLease d.lease)) (sym e) tt;
  bounded = λ s. subst (λ ds. count (pending_of s) ds ≤ 10) (sym e) (omega arith);
}

-- From a store with no deployments, after any sequence of the operations that write services or
-- deployments (queueing, claims, reports, cancellation, actions, schedules and runs, volumes and
-- settings, the creation of services and databases with their binding, and host names), failing ones
-- included, each run alone: each active deployment is the one that its service names, no two
-- deployments share an identifier, each has made at most three attempts and has a deadline once it
-- made one, and no service has more than ten unfinished deployments.
pub run-Inv :
    (o : Outside) (db : Db) (cs : List (ℕ × Call)) → db.deployments ≡ [] → Inv (run o db cs)
run-Inv o db cs e = run_from-Inv o db cs (empty-Inv db e)

-- Two rows that are active under one service have one identifier.
abbrev pub OneActive : Deployment → Deployment → Type 0
OneActive d e =
    is_active d.status ≡ true
    → is_active e.status ≡ true
    → d.service_id ≡ e.service_id
    → d.id ≡ e.id

served_pair :
    (ss : List Service) (d : Deployment) (ds : List Deployment)
    → IsServed ss d
    → All (IsServed ss) ds
    → All (OneActive d) ds
served_pair ss d [] h k = tt
served_pair ss d (e ∷ ds) h (a, k) =
    ((λ x y s. of_some_eq (sym (h x) ∙ (ap (active_of ss) s ∙ a y))), served_pair ss d ds h k)

-- The unique index one_active_per_service is never violated: from a store with no deployments, after
-- any sequence of the operations that write services or deployments, each run alone, any two active
-- deployments of one service are one deployment.
pub run-OneActive :
    (o : Outside) (db : Db) (cs : List (ℕ × Call))
    → db.deployments ≡ []
    → All (λ d. All (OneActive d) (run o db cs).deployments) (run o db cs).deployments
run-OneActive o db cs e =
    let v = run-Inv o db cs e in
    All-map (IsServed (run o db cs).services) (λ d. All (OneActive d) (run o db cs).deployments)
      (λ d h. served_pair (run o db cs).services d (run o db cs).deployments h v.served)
      (run o db cs).deployments v.served
