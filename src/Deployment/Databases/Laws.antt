-- ===== src/Deployment/Databases/Laws.antt =====
-- What CreateDatabase makes.
use cloudrail.Deployment.Settings
use cloudrail.Common.{
  ==_refl, String, [], ap, false, inl, inr, or_left, refl, some, subst, sym, true, ℕ, ◌++◌, ◌==◌,
  ◌||◌, ◌∙◌, ◌∷◌, ◌≡◌, or_four, All,
}
use cloudrail.Common.Table.{All-find, exists, find}
use cloudrail.Common.Table.Writes.{find-after}
use cloudrail.Common.Text.{Text, bytes, equals, has_prefix, contains_any}
use cloudrail.Paths.{
  clean, parts_of, join, resolve, split_slash, split_from, push_part, dot, dot_dot,
}
use cloudrail.Deployment.Creation.{environment_at, has_host, service_named}
use cloudrail.Deployment.Databases.{
  DatabaseDraws, Site, check_database, create_database, database_settings, database_volume,
  new_database, or_text, write_database,
}
use cloudrail.Deployment.Enqueue.{Request, enqueue, write_deployment}
use cloudrail.Deployment.Enqueue.Laws.{enqueue_cases}
use cloudrail.Deployment.Model.{Db, Deployment, Service, Volume, is_data_kind}
use cloudrail.Deployment.Outside.{Outside, id_text}
use cloudrail.Deployment.Settings.{
  is_below_mount, min_memory, public_http, validate_commands, validate_mount, validate_restart,
  validate_timeout,
}
use cloudrail.Deployment.Templates.{Template, catalog, data_template, fits}
use cloudrail.Deployment.Volumes.{
  Names, attached_to, of_volume, same_place, service_with, volume_by_id, runtime_name,
}
use cloudrail.Result.{
  >>=-eq-ok, check_violation, duplicate_key, no_cipher, ok, ok-pair, or_else, or_else-eq-ok, refuse,
  refuse-eq-ok, require, then-eq-ok, unknown_template,
}

-- Any template of the catalogue makes settings that are accepted, of a kind with data.
IsSound : Template → Type 0
IsSound t =
    (volume network host : Text)
    → (Settings.validate (database_settings t volume network host) ≡ ok tt)
      × (is_data_kind t.kind ≡ true)

catalog-IsSound : All IsSound catalog
unfolding catalog IsSound database_settings Settings.validate validate_mount validate_commands
    validate_restart validate_timeout min_memory is_data_kind is_below_mount clean parts_of join
    resolve split_slash split_from push_part dot dot_dot equals has_prefix contains_any
catalog-IsSound = (
  λ volume network host. (refl, refl),
  (
    λ volume network host. (refl, refl),
    (λ volume network host. (refl, refl), (λ volume network host. (refl, refl), tt)),
  ),
)

template-IsSound :
    (key version : String) {t : Template} → data_template key version ≡ ok t → IsSound t
unfolding data_template
template-IsSound key version h =
    All-find IsSound (fits key version) catalog catalog-IsSound
      (or_else-eq-ok (find (fits key version) catalog) unknown_template h)

-- A request leaves the volumes and their attachments.
enqueue_mounts :
    (o : Outside) (now : ℕ) (r : Request) (db : Db) {d : Deployment} {db' : Db}
    → enqueue o now r db ≡ ok (d, db')
    → (db'.volumes ≡ db.volumes) × (db'.attachments ≡ db.attachments)
unfolding write_deployment
enqueue_mounts o now r db h = elim (enqueue_cases o now r db h) [
  | inl i ↦ (ap (λ x. x.volumes) i.written, ap (λ x. x.attachments) i.written)
  | inr i ↦ (ap (λ x. x.volumes) i.unchanged, ap (λ x. x.attachments) i.unchanged)
]

-- the row of the service
abbrev row_of : Names → ℕ → ℕ → Text → String → Template → Service
row_of names fresh project name environment t =
    new_database names fresh project name (or_text environment "production") t

-- What CreateDatabase has checked where it succeeds, and what it has written.
record IsMade (names : Names) (d : DatabaseDraws) (site site' : Site) (s : Service) : Type 0 where
  pub unused : exists (volume_by_id (names.volume_id s.id)) site.workspace.main.volumes ≡ false
  pub unheld : exists (attached_to s.id) site.workspace.main.attachments ≡ false
  pub volumes :
      site'.workspace.main.volumes ≡ site.workspace.main.volumes ++ database_volume names s ∷ []
  pub attachments :
      site'.workspace.main.attachments
      ≡ site.workspace.main.attachments
        ++ record {
          volume_id = names.volume_id s.id;
          service_id = s.id;
          mount_path = s.settings.mount_path;
        }
          ∷ []

-- The checks of the keys leave the place of the volume free.
free_place :
    (names : Names) (s : Service) (site : Site)
    → check_database names s site ≡ ok tt
    → (exists (volume_by_id (names.volume_id s.id)) site.workspace.main.volumes ≡ false)
      × (exists (attached_to s.id) site.workspace.main.attachments ≡ false)
unfolding check_database database_volume
free_place names s site h =
    let (_, h1) =
      then-eq-ok
        (refuse
          (exists (service_with s.id) site.workspace.main.services
            || exists (service_named s.project s.environment s.name) site.workspace.main.services
            || exists (has_host (id_text s.id ++ bytes ".localhost")) site.hosts)
          duplicate_key)
        _ h in
    let (_, h2) =
      then-eq-ok
        (require (exists (environment_at s.project s.environment) site.environments)
          check_violation)
        _ h1 in
    let free = refuse-eq-ok _ _ h2 in
    let v = database_volume names s in
    let main = site.workspace.main in
    let (unused, _, _, empty) =
      or_four (exists (volume_by_id v.id) main.volumes)
        (exists (same_place v.id s.project s.environment v.name) main.volumes)
        (exists (of_volume v.id) main.attachments) (exists (attached_to s.id) main.attachments)
        (or_left _ (exists (λ x. x.service_id == s.id) site.workspace.variables)
          (refuse-eq-ok _ _ h2)) in
    (unused, empty)

-- What a data service has: settings that are valid, no way in from outside, and its volume.
abbrev pub IsServed : Names → Site → Service → Type 0
IsServed names site s =
    (Settings.validate s.settings ≡ ok tt)
    × (public_http s ≡ false)
    × ((v : Volume) × (find (volume_by_id (names.volume_id s.id)) site.workspace.main.volumes
          ≡ some v)
        × (v.runtime_name ≡ s.settings.volume_name)
        × (v.managed_by_template ≡ true))
    × (find (attached_to s.id) site.workspace.main.attachments
        ≡ some (record {
          volume_id = names.volume_id s.id;
          service_id = s.id;
          mount_path = s.settings.mount_path;
        }))

row-IsServed :
    (names : Names) (d : DatabaseDraws) (project : ℕ) (name : Text) (environment : String)
    (t : Template) (site site' : Site)
    → IsSound t
    → IsMade names d site site' (row_of names d.service project name environment t)
    → IsServed names site' (row_of names d.service project name environment t)
unfolding IsSound public_http new_database database_volume
row-IsServed names d project name environment t site site' sound m =
    let x = row_of names d.service project name environment t in
    let (valid, kind) = sound (runtime_name d.service) x.settings.network x.settings.private_host in
    let v = database_volume names x in
    (
      valid,
      rw kind refl,
      (
        v,
        ap (find (volume_by_id v.id)) m.volumes
            ∙ find-after (volume_by_id v.id) site.workspace.main.volumes v m.unused (==_refl v.id),
        refl,
        refl,
      ),
      ap (find (attached_to x.id)) m.attachments
          ∙ find-after (attached_to x.id) site.workspace.main.attachments _ m.unheld (==_refl x.id),
    )

module _ (o : Outside) (names : Names) (d : DatabaseDraws) (project : ℕ) (name : Text)
    (environment key : String) (site : Site) where
  create_database-IsMade :
      {s : Service} {site' : Site}
      → create_database o names d project name environment key site ≡ ok (s, site')
      → (t : Template) × (data_template (or_text key "postgres") "" ≡ ok t)
        × (s ≡ row_of names d.service project name environment t)
        × IsMade names d site site' (row_of names d.service project name environment t)
  unfolding create_database write_database database_volume
  create_database-IsMade {s = s} {site' = site'} h =
      let (t, known, h1) = >>=-eq-ok (data_template (or_text key "postgres") "") _ h in
      let x = row_of names d.service project name environment t in
      let (free, h2) = then-eq-ok (check_database names x site) _ h1 in
      let (c, _, h3) = >>=-eq-ok (or_else o.cipher no_cipher) _ h2 in
      let (row, queued, h4) = >>=-eq-ok _ _ h3 in
      let (volumes, attachments) = enqueue_mounts _ _ _ _ queued in
      let (same, written) = ok-pair h4 in
      let (unused, unheld) = free_place names x site free in
      (
        t,
        known,
        sym same,
        record {
          unused = unused;
          unheld = unheld;
          volumes = ap (λ y. y.workspace.main.volumes) (sym written) ∙ volumes;
          attachments = ap (λ y. y.workspace.main.attachments) (sym written) ∙ attachments;
        },
      )

  -- A data service that is created, from any template that is known, has settings that
  -- Settings.Validate accepts and is never reached from outside. Its volume is in the store under the
  -- name that its settings mount, the template manages it, and the one attachment that a query for the
  -- service finds joins the two at the settings' mount path.
  pub create_database-valid :
      {s : Service} {site' : Site}
      → create_database o names d project name environment key site ≡ ok (s, site')
      → IsServed names site' s
  create_database-valid {s = s} {site' = site'} h =
      let (t, known, same, m) = create_database-IsMade h in
      subst (IsServed names site') (sym same) (
        row-IsServed names d project name environment t site site'
          (template-IsSound (or_text key "postgres") "" known) m)
