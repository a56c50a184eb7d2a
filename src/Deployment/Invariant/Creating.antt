-- ===== src/Deployment/Invariant/Creating.antt =====
-- CreateCompute, CreateDatabase and BindDatabase keep the invariant: a new service runs no release.
use cloudrail.Common.{
  Bool-cases, List, Option, String, [], ap, inl, inr, none, refl, some, subst, sym, ℕ, ◌++◌, ◌||◌,
  ◌∙◌, ◌∷◌, ◌≡◌, if◌then◌else◌,
}
use cloudrail.Common.Table.{exists, find, find-append}
use cloudrail.Common.Text.{Text}
use cloudrail.Deployment.Creation.{
  Registry, create_compute, environment_at, has_host, new_host, new_service, service_named,
}
use cloudrail.Deployment.Databases.{
  DatabaseDraws, Site, check_database, create_database, new_database, or_text, write_database,
}
use cloudrail.Deployment.Databases.Binding.{
  bind_database, check_binding, connected, connection, kept, moved, referred, on_network,
}
use cloudrail.Deployment.Invariant.{Inv, active_id_of, active_of, service_by_id}
use cloudrail.Deployment.Invariant.Claiming.{beside-Inv}
use cloudrail.Deployment.Invariant.Queueing.{enqueue-Inv}
use cloudrail.Deployment.Invariant.Rows.{active_of-update}
use cloudrail.Deployment.Model.{ComputeSpec, Service}
use cloudrail.Deployment.Outside.{Outside}
use cloudrail.Deployment.Spec.{validate_compute}
use cloudrail.Deployment.Templates.{data_template}
use cloudrail.Deployment.Variables.{Workspace, secret, set_variable}
use cloudrail.Deployment.Variables.Setting.{set_variable-IsAssigned}
use cloudrail.Deployment.Volumes.{Names, service_with}
use cloudrail.Result.{
  >>=-eq-ok, Error, Result, check_violation, duplicate_key, err, no_cipher, ok, ok-pair, or_else,
  refuse, require, then-eq-ok,
}

-- A service without a release hides none.
append-active_of :
    (ss : List Service) (s : Service) (id : ℕ)
    → s.active_id ≡ none
    → active_of (ss ++ s ∷ []) id ≡ active_of ss id
unfolding active_of
append-active_of ss s id h =
    ap active_id_of (find-append (service_by_id id) ss s) ∙ kept (find (service_by_id id) ss)
  where
    kept :
        (o : Option Service)
        → active_id_of
            (elim o [ none ↦ if service_by_id id s then some s else none | some x ↦ some x ])
          ≡ active_id_of o
    kept (some x) = refl
    kept none = elim (Bool-cases (service_by_id id s)) [ inl t ↦ rw t h | inr t ↦ rw t refl ]

pub create_compute-Inv :
    (names : Names) (fresh : ℕ) (domain : Text) (project : ℕ) (spec : ComputeSpec) (r : Registry)
    {s : Service} {q : Registry}
    → create_compute names fresh domain project spec r ≡ ok (s, q)
    → Inv r.main
    → Inv q.main
unfolding create_compute new_service
create_compute-Inv names fresh domain project spec r h v =
    let (_, h1) = then-eq-ok (validate_compute spec) _ h in
    let (_, h2) =
      then-eq-ok
        (refuse
          (exists (service_with fresh) r.main.services
            || exists (service_named project spec.environment spec.name) r.main.services
            || exists (has_host (new_host fresh domain)) r.hosts)
          duplicate_key)
        _ h1 in
    let (_, h3) =
      then-eq-ok
        (require (exists (environment_at project spec.environment) r.environments) check_violation)
        _ h2 in
    subst (λ x. Inv x.main) (ok-pair h3).1
      (beside-Inv r.main _ refl v (λ id. append-active_of r.main.services _ id refl))

pub create_database-Inv :
    (o : Outside) (names : Names) (d : DatabaseDraws) (project : ℕ) (name : Text)
    (environment key : String) (site : Site) {s : Service} {site' : Site}
    → create_database o names d project name environment key site ≡ ok (s, site')
    → Inv site.workspace.main
    → Inv site'.workspace.main
unfolding create_database write_database new_database
create_database-Inv o names d project name environment key site h v =
    let (t, _, h1) = >>=-eq-ok (data_template (or_text key "postgres") "") _ h in
    let x = new_database names d.service project name (or_text environment "production") t in
    let (_, h2) = then-eq-ok (check_database names x site) _ h1 in
    let (c, _, h3) = >>=-eq-ok (or_else o.cipher no_cipher) _ h2 in
    let (row, queued, h4) = >>=-eq-ok _ _ h3 in
    let w = write_database names c d x site.workspace in
    let written =
      beside-Inv site.workspace.main w.main refl v
        (λ id. append-active_of site.workspace.main.services x id refl) in
    subst (λ y. Inv y.workspace.main) (ok-pair h4).1 (enqueue-Inv o d.now _ w.main queued written)

-- What was written before an error of BindDatabase, and what after it.
kept-Inv {ℓ} :
    {A : Type ℓ} (m : Result A) (w : Workspace) (next : A → Option Error × Workspace)
    → Inv w.main
    → ((x : A) → m ≡ ok x → Inv (next x).1.main)
    → Inv (kept m w next).1.main
kept-Inv (err e) w next v k = v
kept-Inv (ok x) w next v k = k x refl

moved-Inv :
    (names : Names) (target : ℕ) (w : Workspace) (a : Option Service)
    → Inv w.main
    → Inv (moved names target w a).main
moved-Inv names target w none v = v
moved-Inv names target w (some a) v = beside-Inv w.main _ refl v (λ id.
    active_of-update (service_with target) (on_network (names.network a.project a.environment))
      w.main.services id (λ s. refl) (λ s. refl))

pub bind_database-Inv :
    (o : Outside) (names : Names) (nonce : Text) (database target : ℕ) (name : Text) (w : Workspace)
    → Inv w.main
    → Inv (bind_database o names nonce database target name w).1.main
unfolding bind_database connected referred
bind_database-Inv o names nonce database target name w v =
    kept-Inv (check_binding database target name w) w _ v (λ _ _.
      let there = connected names target w in
      let u = moved-Inv names target w (find (service_with target) w.main.services) v in
      kept-Inv (connection o database there) there _ u (λ c _.
        kept-Inv (set_variable o nonce target name (c.0) secret there) there _ u (λ q e.
          let s = set_variable-IsAssigned o nonce target name (c.0) secret there e in
          subst (λ y. Inv y.main) (sym s.written) u)))
