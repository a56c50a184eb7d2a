-- ===== src/Deployment/Creation/Laws.antt =====
-- What CreateCompute makes.
use cloudrail.Deployment.Settings
use cloudrail.Common.{
  ==_refl, [], ap, false, if◌then◌else◌, length, ltb, none, not, or_left, refl, some, sym, true, ℕ,
  ◌++◌, ◌||◌, ◌∙◌, ◌∷◌, ◌≡◌,
}
use cloudrail.Common.Table.{exists, find}
use cloudrail.Common.Table.Writes.{find-after}
use cloudrail.Common.Text.{Text, bytes, is_empty}
use cloudrail.Deployment.Creation.{
  Registry, create_compute, environment_at, has_host, is_public, new_host, new_service,
  service_named,
}
use cloudrail.Deployment.Model.{ComputeSpec, Service, Workload, is_data_kind}
use cloudrail.Deployment.Settings.{
  enabled, is_web, min_memory, public_http, validate_commands, validate_mount, validate_restart,
  validate_timeout,
}
use cloudrail.Deployment.Spec.{known_workload, valid_name, validate_compute}
use cloudrail.Deployment.Volumes.{Names, service_with}
use cloudrail.Result.{
  check_violation, duplicate_key, invalid_environment, invalid_name, invalid_workload, ok, ok-pair,
  refuse, refuse-eq-ok, require, require-eq-ok, then-eq-ok,
}

-- What CreateCompute has checked where it succeeds, and what it has written.
record IsCreated (names : Names) (fresh : ℕ) (project : ℕ) (spec : ComputeSpec) (r : Registry)
    (s : Service) (q : Registry) : Type 0 where
  pub valid : validate_compute spec ≡ ok tt
  pub new : exists (service_with fresh) r.main.services ≡ false
  pub made : s ≡ new_service names fresh project spec
  pub written : q.main.services ≡ r.main.services ++ new_service names fresh project spec ∷ []

create_compute-IsCreated :
    (names : Names) (fresh : ℕ) (domain : Text) (project : ℕ) (spec : ComputeSpec) (r : Registry)
    {s : Service} {q : Registry}
    → create_compute names fresh domain project spec r ≡ ok (s, q)
    → IsCreated names fresh project spec r s q
unfolding create_compute
create_compute-IsCreated names fresh domain project spec r h =
    let (valid, h1) = then-eq-ok (validate_compute spec) _ h in
    let (free, h2) =
      then-eq-ok
        (refuse
          (exists (service_with fresh) r.main.services
            || exists (service_named project spec.environment spec.name) r.main.services
            || exists (has_host (new_host fresh domain)) r.hosts)
          duplicate_key)
        _ h1 in
    let (_, h3) =
      then-eq-ok
        (require (exists (environment_at project spec.environment) r.environments) check_violation)
        _ h2 in
    let (s, q) = ok-pair h3 in
    record {
      valid = valid;
      new = or_left _ _ (or_left _ _ (refuse-eq-ok _ _ free));
      made = sym s;
      written = ap (λ x. x.main.services) (sym q);
    }

created_settings :
    (names : Names) (fresh project : ℕ) (spec : ComputeSpec)
    → Settings.validate (new_service names fresh project spec).settings ≡ ok tt
unfolding new_service Settings.validate validate_mount validate_commands validate_restart
    validate_timeout min_memory is_data_kind
created_settings names fresh project spec = refl

known_kind : (t : ComputeSpec) → validate_compute t ≡ ok tt → known_workload t.workload ≡ true
unfolding validate_compute
known_kind t v =
    let (_, h1) = then-eq-ok (require (valid_name t.name) invalid_name) _ v in
    let (_, h2) =
      then-eq-ok
        (refuse
          (is_empty (bytes t.environment)
            || ltb 60 (length (bytes t.environment))
            || not (valid_name (bytes t.environment)))
          invalid_environment)
        _ h1 in
    let (known, _) = then-eq-ok (require (known_workload t.workload) invalid_workload) _ h2 in
    require-eq-ok _ _ known

-- A service that is created from any specification which is accepted has settings that
-- Settings.Validate accepts, runs no release, is reached from outside just where it is a web service,
-- and is the one that a query for its identifier finds.
pub create_compute-valid :
    (names : Names) (fresh : ℕ) (domain : Text) (project : ℕ) (spec : ComputeSpec) (r : Registry)
    {s : Service} {q : Registry}
    → create_compute names fresh domain project spec r ≡ ok (s, q)
    → (Settings.validate s.settings ≡ ok tt)
      × (s.active_id ≡ none)
      × (public_http s ≡ is_web spec.workload)
      × (find (service_with fresh) q.main.services ≡ some s)
unfolding public_http new_service is_data_kind
create_compute-valid names fresh domain project spec r {s = s} {q = q} h =
    let c = create_compute-IsCreated names fresh domain project spec r h in
    let s = new_service names fresh project spec in
    (
      ap (λ x. Settings.validate x.settings) c.made ∙ created_settings names fresh project spec,
      ap (λ x. x.active_id) c.made,
      ap public_http c.made ∙ reached spec.workload (known_kind spec c.valid),
      ap (find (service_with fresh)) c.written
          ∙ (find-after (service_with fresh) r.main.services s c.new (==_refl fresh)
              ∙ ap some (sym c.made)),
    )
  where
    reached :
        (w : Workload)
        → known_workload w ≡ true
        → (if not (is_web w) then false else enabled (some (is_public w))) ≡ is_web w
    reached Workload.web k = refl
    reached Workload.worker k = refl
    reached Workload.cron k = refl
    reached Workload.unset k = absurd (cc)
    reached (Workload.other t) k = absurd (cc)
