-- ===== src/Deployment/Volumes/Laws.antt =====
-- What attaching a volume does, undoing it, and what SaveSettings makes of it.
use cloudrail.Deployment.Settings
use cloudrail.Common.{
  ==_iff, ==_refl, All, All-map, Bool, Bool-cases, List, [], ap, ap₂, arith, false, inl, inr, not,
  of_some_eq, refl, some, subst, sym, true, ℕ, ◌&&◌, ◌++◌, ◌∙◌, ◌∷◌, ◌≡◌, ◌≢◌, ◌≤◌,
}
use cloudrail.Common.Int.{ℤ}
use cloudrail.Common.Table.{count, delete, exists, find, find-update, find_sound, update, updated}
use cloudrail.Common.Table.Rows.{only_row}
use cloudrail.Common.Table.Writes.{delete-append, exists-appended, find-after}
use cloudrail.Common.Text.{Text, equals, is_empty}
use cloudrail.Deployment.Actions.{unfinished}
use cloudrail.Deployment.Enqueue.{with_settings}
use cloudrail.Deployment.Model.{Attachment, Db, Service, Settings, Volume}
use cloudrail.Deployment.Variables.{named}
use cloudrail.Deployment.Volumes.{
  Names, attach_volume, attached_to, check_holder, detach_volume, may_hold, mounted, of_volume,
  other_volume, resized, runtime_name, same_place, save_resources, save_volume, serves,
  service_with, volume_by_id,
}
use cloudrail.Result.{
  >>=-eq-ok, already_attached, different_scope, duplicate_key, has_volume, managed_volume, no_rows,
  not_stopped, ok, ok-injective, or_else, or_else-eq-ok, refuse, refuse-eq-ok, require, then-eq-ok,
  volume_fixed,
}

-- What an attachment that succeeds has found, and what it has written.
record IsAttached (volume service : ℕ) (mount : Text) (db q : Db) : Type 0 where
  pub vol : Volume
  pub holder : Service
  pub volume_found : find (volume_by_id volume) db.volumes ≡ some vol
  pub own : vol.managed_by_template ≡ false
  pub detached : exists (of_volume volume) db.attachments ≡ false
  pub service_found : find (service_with service) db.services ≡ some holder
  pub halted : serves holder ≡ false
  pub idle : unfinished holder.id db ≡ false
  pub written : q ≡ record db {
    attachments =
        db.attachments
        ++ record { volume_id = volume; service_id = service; mount_path = mount } ∷ [];
    services =
        update
          (service_with service)
          (with_settings (mounted mount vol.runtime_name holder.settings))
          db.services;
  }

attach_volume-IsAttached :
    (volume service : ℕ) (mount : Text) (db : Db) {q : Db}
    → attach_volume volume service mount db ≡ ok q
    → IsAttached volume service mount db q
unfolding attach_volume check_holder
attach_volume-IsAttached volume service mount db h =
    let (v, fv, h1) = >>=-eq-ok (or_else (find (volume_by_id volume) db.volumes) no_rows) _ h in
    let (own, h2) = then-eq-ok (refuse v.managed_by_template managed_volume) _ h1 in
    let (free, h3) =
      then-eq-ok (refuse (exists (of_volume volume) db.attachments) already_attached) _ h2 in
    let (s, fs, h4) = >>=-eq-ok (or_else (find (service_with service) db.services) no_rows) _ h3 in
    let (checked, h5) = then-eq-ok (check_holder v s db) _ h4 in
    let (_, h6) = then-eq-ok (Settings.validate (mounted mount v.runtime_name s.settings)) _ h5 in
    let (_, c1) = then-eq-ok (require (may_hold v s) different_scope) _ checked in
    let (halted, c2) = then-eq-ok (refuse (serves s) not_stopped) _ c1 in
    let (_, idle) =
      then-eq-ok (refuse (exists (attached_to s.id) db.attachments) has_volume) _ c2 in
    record {
      vol = v;
      holder = s;
      volume_found = or_else-eq-ok _ _ fv;
      own = refuse-eq-ok _ _ own;
      detached = refuse-eq-ok _ _ free;
      service_found = or_else-eq-ok _ _ fs;
      halted = refuse-eq-ok _ _ halted;
      idle = refuse-eq-ok _ _ idle;
      written = sym (ok-injective h6);
    }

module _ {ℓ} {A : Type ℓ} where
  -- an update and another of the same rows, which makes up for it
  update-undone :
      (p : A → Bool) (f g : A → A) (xs : List A)
      → ((x : A) → p (f x) ≡ p x)
      → All (λ x. p x ≡ true → g (f x) ≡ x) xs
      → update p g (update p f xs) ≡ xs
  unfolding update
  update-undone p f g [] k h = refl
  update-undone p f g (x ∷ xs) k (a, h) = elim (Bool-cases (p x)) [
    | inl t ↦ rw t (rw (k x ∙ t) (rw (a t) (rw (update-undone p f g xs k h) refl)))
    | inr t ↦ rw t (rw t (rw (update-undone p f g xs k h) refl))
  ]

service_after :
    (ss : List Service) (service : ℕ) (c : Settings) (s : Service)
    → find (service_with service) ss ≡ some s
    → find (service_with service) (update (service_with service) (with_settings c) ss)
      ≡ some (with_settings c s)
service_after ss service c s f =
    find-update (service_with service) (service_with service) (with_settings c) ss (λ x. refl)
    ∙ (ap (updated (service_with service) (with_settings c)) f
        ∙ rw (find_sound (service_with service) ss f) refl)

unfinished_beside :
    (id : ℕ) (db q : Db)
    → q.deployments ≡ db.deployments
    → q.actions ≡ db.actions
    → q.runs ≡ db.runs
    → unfinished id q ≡ unfinished id db
unfolding unfinished
unfinished_beside id db q d a r = rw d (rw a (rw r refl))

serves_after : (c : Settings) (s : Service) → serves s ≡ false → serves (with_settings c s) ≡ false
unfolding serves
serves_after c s h = h

-- a detachment, from what its queries find
detached_lem :
    (volume : ℕ) (q : Db) (v : Volume) (a : Attachment) (s : Service)
    → find (volume_by_id volume) q.volumes ≡ some v
    → find (of_volume volume) q.attachments ≡ some a
    → v.managed_by_template ≡ false
    → find (service_with a.service_id) q.services ≡ some s
    → serves s ≡ false
    → unfinished a.service_id q ≡ false
    → detach_volume volume q
      ≡ ok (record q {
        attachments = delete (of_volume volume) q.attachments;
        services =
            update
              (service_with a.service_id)
              (with_settings (mounted [] [] s.settings))
              q.services;
      })
unfolding detach_volume
detached_lem volume q v a s fv fa m fs h u = rw fv (rw fa (rw m (rw fs (rw h (rw u refl)))))

-- the settings of an application that has no volume
emptied :
    (mount name : Text) (c : Settings)
    → c.mount_path ≡ []
    → c.volume_name ≡ []
    → mounted [] [] (mounted mount name c) ≡ c
emptied mount name c m n = ap₂ (λ m n. record c { mount_path = m; volume_name = n }) (sym m) (sym n)

-- Attaching a volume and detaching it again restores the store, where the application's identifier
-- is its own and its settings named no volume and no mount path before.
pub attach_volume-detach_volume :
    (volume service : ℕ) (mount : Text) (db q : Db)
    → attach_volume volume service mount db ≡ ok q
    → count (service_with service) db.services ≤ 1
    → ((s : Service)
        → find (service_with service) db.services ≡ some s
        → (s.settings.mount_path ≡ []) × (s.settings.volume_name ≡ []))
    → detach_volume volume q ≡ ok db
attach_volume-detach_volume volume service mount db q h one bare =
    let k = attach_volume-IsAttached volume service mount db h in
    let s = k.holder in
    let c = mounted mount k.vol.runtime_name s.settings in
    let a : Attachment = record { volume_id = volume; service_id = service; mount_path = mount } in
    let s' = with_settings c s in
    let e = bare s k.service_found in
    let restored =
      update-undone (service_with service) (with_settings c)
        (with_settings (mounted [] [] s'.settings)) db.services (λ x. refl)
        (All-map (λ x. service_with service x ≡ true → x ≡ s)
          (λ x.
            service_with service x ≡ true
            → with_settings (mounted [] [] s'.settings) (with_settings c x) ≡ x)
          (λ x same t.
            rw (same t)
              (ap (λ d. with_settings d s) (emptied mount k.vol.runtime_name s.settings e.0 e.1)))
          db.services (only_row (service_with service) db.services s one k.service_found)) in
    let idle : unfinished service db ≡ false =
      subst (λ i. unfinished i db ≡ false)
        ((==_iff s.id service).0 (find_sound (service_with service) db.services k.service_found))
        k.idle in
    rw k.written (
      detached_lem volume _ k.vol a s' k.volume_found
        (find-after (of_volume volume) db.attachments a k.detached (==_refl volume)) k.own
        (service_after db.services service c s k.service_found) (serves_after c s k.halted)
        (unfinished_beside service db _ refl refl refl ∙ idle)
      ∙ ap₂ (λ held ss. ok (record db { attachments = held; services = ss }))
          (delete-append (of_volume volume) db.attachments a k.detached (==_refl volume)) restored)

resized_named :
    (names : Names) (s : Service) (memory cpu : ℤ) (mount : Text)
    → is_empty s.settings.volume_name ≡ false
    → is_empty (resized names s memory cpu mount).volume_name ≡ false
unfolding resized runtime_name
resized_named names s memory cpu mount h = elim (Bool-cases (is_empty mount)) [
  | inl t ↦ rw t h
  | inr t ↦ rw t refl
]

save_volume_refused :
    (names : Names) (s : Service) (c : Settings) (db q : Db)
    → exists (other_volume (names.volume_id s.id) s.id) db.attachments ≡ true
    → save_volume names s c db ≢ ok q
unfolding save_volume
save_volume_refused names s c db q e h =
    let (_, h1) =
      then-eq-ok
        (refuse
          (exists (same_place (names.volume_id s.id) s.project s.environment c.volume_name)
            db.volumes)
          duplicate_key)
        _ h in
    let (clash, _) =
      then-eq-ok
        (refuse (exists (other_volume (names.volume_id s.id) s.id) db.attachments) duplicate_key) _
        h1 in
    cc (refuse-eq-ok _ _ clash, e)

other_lem :
    (volume service id : ℕ) (mount : Text)
    → volume ≢ id
    → other_volume id service
        (record { volume_id = volume; service_id = service; mount_path = mount })
      ≡ true
other_lem volume service id mount n = ground (arith, n)

-- SaveSettings keeps a volume of its own for each service, under the identifier VolumeID(service).
-- After AttachVolume of any other volume, one with a runtime name, SaveSettings fails for that service,
-- whatever memory, processor share and mount path it is given.
pub attach_volume-save_resources :
    (volume service : ℕ) (mount : Text) (db q : Db) (v : Volume)
    → attach_volume volume service mount db ≡ ok q
    → find (volume_by_id volume) db.volumes ≡ some v
    → is_empty v.runtime_name ≡ false
    → (names : Names) → volume ≢ names.volume_id service
    → (memory cpu : ℤ) (given : Text) (q' : Db)
    → save_resources names service memory cpu given q ≢ ok q'
unfolding save_resources
attach_volume-save_resources volume service mount db q v h fv named names other memory cpu given q'
      g =
    let k = attach_volume-IsAttached volume service mount db h in
    let (s, f, g1) = >>=-eq-ok (or_else (find (service_with service) q.services) no_rows) _ g in
    let (_, g2) =
      then-eq-ok
        (refuse (not (is_empty s.settings.mount_path) && not (equals given s.settings.mount_path))
          volume_fixed)
        _ g1 in
    let (_, g3) = then-eq-ok (Settings.validate (resized names s memory cpu given)) _ g2 in
    let a : Attachment = record { volume_id = volume; service_id = service; mount_path = mount } in
    let same_volume : k.vol ≡ v = of_some_eq (sym k.volume_found ∙ fv) in
    let found : some s
        ≡ some (with_settings (mounted mount k.vol.runtime_name k.holder.settings) k.holder) =
      sym (or_else-eq-ok _ _ f)
      ∙ (ap (λ d. find (service_with service) d.services) k.written
          ∙ service_after db.services service _ k.holder k.service_found) in
    let name : is_empty s.settings.volume_name ≡ false =
      ap (λ x. is_empty x.settings.volume_name) (of_some_eq found)
      ∙ (ap (λ x. is_empty x.runtime_name) same_volume ∙ named) in
    let own : s.id ≡ service =
      (==_iff s.id service).0
        (find_sound (service_with service) q.services (or_else-eq-ok _ _ f)) in
    let clash : exists (other_volume (names.volume_id s.id) s.id) q.attachments ≡ true =
      subst (λ i. exists (other_volume (names.volume_id i) i) q.attachments ≡ true) (sym own)
        (ap (λ d. exists (other_volume (names.volume_id service) service) d.attachments) k.written
          ∙ exists-appended (other_volume (names.volume_id service) service) db.attachments a
              (other_lem volume service (names.volume_id service) mount other)) in
    save_volume_refused names s (resized names s memory cpu given) _ q' clash
      (rw (resized_named names s memory cpu given name) at g3)
