-- ===== src/Deployment/Invariant/Settings.antt =====
-- The operations on volumes and settings keep the invariant: they write settings alone.
use text.Mathlib.Text.{◌==◌ as str_eq}
use cloudrail.Deployment.Settings
use cloudrail.Common.{
  [], some, if◌then◌else◌, not, ◌&&◌, ◌||◌, ◌==◌, Bool, Bool-cases, String, ap, inl, inr, refl,
  subst, ℕ, ◌∙◌, ◌≡◌,
}
use cloudrail.Common.Int.{ℤ, is_above, is_below}
use cloudrail.Common.Table.{count, exists, find, update}
use cloudrail.Common.Text.{Text, equals, is_empty}
use cloudrail.Deployment.Enqueue.{with_settings}
use cloudrail.Deployment.Invariant.{Inv, active_of}
use cloudrail.Deployment.Invariant.Claiming.{beside-Inv}
use cloudrail.Deployment.Invariant.Rows.{active_of-update}
use cloudrail.Deployment.Model.{Db, Service, Settings, Volume}
use cloudrail.Deployment.Outside.{id_text}
use cloudrail.Deployment.Actions.{unfinished}
use cloudrail.Deployment.Settings.{is_web, normalize}
use cloudrail.Deployment.Spec.{valid_name}
use cloudrail.Deployment.Networking.{
  RuntimeSettings, http_service, with_runtime, save_networking, save_runtime,
}
use cloudrail.Deployment.Volumes.{
  Names, attach_volume, create_volume, detach_volume, resized, save_resources, save_volume,
  volume_by_id, same_place, of_volume, service_with, check_holder, mounted, serves, other_volume,
}
use cloudrail.Result.{
  >>=-eq-ok, ok, ok-injective, ok-pair, then-eq-ok, require, refuse, or_else, no_rows, invalid_name,
  check_violation, duplicate_key, managed_volume, already_attached, not_stopped, unfinished_work,
  volume_fixed, invalid_target_port, not_web_service,
}

-- A write of a service's settings, whatever else is written beside the deployments.
pub settings-Inv :
    (p : Service → Bool) (c : Settings) (db q : Db)
    → q.deployments ≡ db.deployments
    → q.services ≡ update p (with_settings c) db.services
    → Inv db
    → Inv q
settings-Inv p c db q d s v = beside-Inv db q d v (λ id.
    ap (λ ss. active_of ss id) s
    ∙ active_of-update p (with_settings c) db.services id (λ s. refl) (λ s. refl))

pub create_volume-Inv :
    (fresh : ℕ) (known : Bool) (project : ℕ) (environment : String) (name : Text) (db : Db)
    {a : Volume} {q : Db}
    → create_volume fresh known project environment name db ≡ ok (a, q)
    → Inv db
    → Inv q
unfolding create_volume
create_volume-Inv fresh known project environment name db {q = q} h v =
    let (_, h1) = then-eq-ok (require (valid_name name) invalid_name) _ h in
    let (_, h2) = then-eq-ok (require known check_violation) _ h1 in
    let (_, h3) =
      then-eq-ok
        (refuse
          (exists (volume_by_id fresh) db.volumes
            || exists
                (same_place fresh project
                  (if str_eq environment "" then "production" else environment) name)
                db.volumes)
          duplicate_key)
        _ h2 in
    subst Inv (ok-pair h3).1 (beside-Inv db _ refl v (λ id. refl))

pub attach_volume-Inv :
    (volume service : ℕ) (mount : Text) (db : Db) {q : Db}
    → attach_volume volume service mount db ≡ ok q
    → Inv db
    → Inv q
unfolding attach_volume
attach_volume-Inv volume service mount db {q = q} h v =
    let (v1, _, h1) = >>=-eq-ok (or_else (find (volume_by_id volume) db.volumes) no_rows) _ h in
    let (_, h2) = then-eq-ok (refuse v1.managed_by_template managed_volume) _ h1 in
    let (_, h3) =
      then-eq-ok (refuse (exists (of_volume volume) db.attachments) already_attached) _ h2 in
    let (s, _, h4) = >>=-eq-ok (or_else (find (service_with service) db.services) no_rows) _ h3 in
    let (_, h5) = then-eq-ok (check_holder v1 s db) _ h4 in
    let (_, h6) = then-eq-ok (Settings.validate (mounted mount v1.runtime_name s.settings)) _ h5 in
    subst Inv (ok-injective h6) (
      settings-Inv (service_with service) (mounted mount v1.runtime_name s.settings) db _ refl refl
        v)

pub detach_volume-Inv :
    (volume : ℕ) (db : Db) {q : Db} → detach_volume volume db ≡ ok q → Inv db → Inv q
unfolding detach_volume
detach_volume-Inv volume db {q = q} h v =
    let (v1, _, h1) = >>=-eq-ok (or_else (find (volume_by_id volume) db.volumes) no_rows) _ h in
    let (a, _, h2) = >>=-eq-ok (or_else (find (of_volume volume) db.attachments) no_rows) _ h1 in
    let (_, h3) = then-eq-ok (refuse v1.managed_by_template managed_volume) _ h2 in
    let (s, _, h4) =
      >>=-eq-ok (or_else (find (service_with a.service_id) db.services) no_rows) _ h3 in
    let (_, h5) = then-eq-ok (refuse (serves s) not_stopped) _ h4 in
    let (_, h6) = then-eq-ok (refuse (unfinished a.service_id db) unfinished_work) _ h5 in
    subst Inv (ok-injective h6)
      (settings-Inv (service_with a.service_id) (mounted [] [] s.settings) db _ refl refl v)

save_volume-Inv :
    (names : Names) (s : Service) (c : Settings) (db : Db) {q : Db}
    → save_volume names s c db ≡ ok q
    → Inv db
    → Inv q
unfolding save_volume
save_volume-Inv names s c db h v =
    let (_, h1) =
      then-eq-ok
        (refuse
          (exists (same_place (names.volume_id s.id) s.project s.environment c.volume_name)
            db.volumes)
          duplicate_key)
        _ h in
    let (_, h2) =
      then-eq-ok
        (refuse (exists (other_volume (names.volume_id s.id) s.id) db.attachments) duplicate_key) _
        h1 in
    subst Inv (ok-injective h2) (beside-Inv db _ refl v (λ id. refl))

pub save_resources-Inv :
    (names : Names) (id : ℕ) (memory cpu : ℤ) (mount : Text) (db : Db) {q : Db}
    → save_resources names id memory cpu mount db ≡ ok q
    → Inv db
    → Inv q
unfolding save_resources
save_resources-Inv names id memory cpu mount db {q = q} h v =
    let (s, _, h1) = >>=-eq-ok (or_else (find (service_with id) db.services) no_rows) _ h in
    let (_, h2) =
      then-eq-ok
        (refuse (not (is_empty s.settings.mount_path) && not (equals mount s.settings.mount_path))
          volume_fixed)
        _ h1 in
    let (_, h3) = then-eq-ok (Settings.validate (resized names s memory cpu mount)) _ h2 in
    let c = resized names s memory cpu mount in
    let saved =
      settings-Inv (service_with id) c db
        (record db { services = update (service_with id) (with_settings c) db.services }) refl refl
        v in
    elim (Bool-cases (is_empty c.volume_name)) [
      | inl t ↦ subst Inv (ok-injective (rw t at h3)) saved
      | inr t ↦
          save_volume-Inv names s c
            (record db { services = update (service_with id) (with_settings c) db.services })
            (rw t at h3) saved
    ]

pub save_networking-Inv :
    (id : ℕ) (public : Bool) (port : ℤ) (db : Db) {c : Settings} {q : Db}
    → save_networking id public port db ≡ ok (c, q)
    → Inv db
    → Inv q
unfolding save_networking
save_networking-Inv id public port db h v =
    let (_, h1) =
      then-eq-ok (refuse (is_below port 1 || is_above port 65535) invalid_target_port) _ h in
    let (s, _, h2) = >>=-eq-ok (or_else (find (http_service id) db.services) no_rows) _ h1 in
    let (_, h3) = then-eq-ok (require (is_web s.workload) not_web_service) _ h2 in
    let (_, h4) =
      then-eq-ok
        (Settings.validate (record (normalize (id_text id) s).settings {
          public_enabled = some public;
          target_port = port;
        }))
        _ h3 in
    subst Inv (ok-pair h4).1 (
      settings-Inv (λ s. s.id == id)
        (record (normalize (id_text id) s).settings {
          public_enabled = some public;
          target_port = port;
        })
        db _ refl refl v)

pub save_runtime-Inv :
    (id : ℕ) (r : RuntimeSettings) (db : Db) {c : Settings} {q : Db}
    → save_runtime id r db ≡ ok (c, q)
    → Inv db
    → Inv q
unfolding save_runtime
save_runtime-Inv id r db h v =
    let (s, _, h1) = >>=-eq-ok (or_else (find (http_service id) db.services) no_rows) _ h in
    let (_, h2) = then-eq-ok (Settings.validate (with_runtime r s.settings)) _ h1 in
    let (_, h3) = then-eq-ok (require (count (λ s. s.id == id) db.services == 1) no_rows) _ h2 in
    subst Inv (ok-pair h3).1
      (settings-Inv (λ s. s.id == id) (with_runtime r s.settings) db _ refl refl v)
