-- ===== src/Deployment/Volumes/Tests.antt =====
-- A store with a volume, and attaching it.
use cloudrail.Deployment.Settings
use cloudrail.Common.Int.{pos}
use cloudrail.Common.{[], ap, arith, false, of_some_eq, refl, some, sym, ◌+◌, ◌∷◌, ◌≡◌, ◌≢◌}
use cloudrail.Common.Table.{count, exists, find, update}
use cloudrail.Common.Text.{bytes, contains_any, equals, has_prefix}
use cloudrail.Deployment.Actions.{unfinished}
use cloudrail.Deployment.Enqueue.{with_settings}
use cloudrail.Deployment.Model.{Db, Service, Volume, is_data_kind}
use cloudrail.Deployment.Settings.{
  is_below_mount, min_memory, validate_commands, validate_mount, validate_restart, validate_timeout,
}
use cloudrail.Deployment.Volumes.{
  Names, attach_volume, check_holder, detach_volume, may_hold, mounted, save_resources, serves,
  service_with,
}
use cloudrail.Deployment.Volumes.Laws.{attach_volume-detach_volume, attach_volume-save_resources}
use cloudrail.Paths.{
  clean, dot, dot_dot, join, parts_of, push_part, resolve, split_from, split_slash,
}
use cloudrail.Result.{ok}
use cloudrail.Tests.{service_one, settings, store}

abbrev free_volume : Volume
free_volume = record {
  id = 3;
  project = 1;
  environment = "production";
  name = bytes "v";
  runtime_name = bytes "cloudrail-volume-3";
  managed_by_template = false;
}

abbrev bare_service : Service
bare_service = record service_one { settings = record settings { mount_path = [] } }

abbrev volume_store : Db
volume_store = record store { services = bare_service ∷ []; volumes = free_volume ∷ [] }

abbrev attached_store : Db
attached_store = record volume_store {
  attachments = record { volume_id = 3; service_id = 1; mount_path = bytes "/data" } ∷ [];
  services =
      with_settings (mounted (bytes "/data") free_volume.runtime_name bare_service.settings)
        bare_service
      ∷ [];
}

attach_accepted : attach_volume 3 1 (bytes "/data") volume_store ≡ ok attached_store
unfolding attach_volume check_holder find exists update may_hold serves unfinished Settings.validate
    min_memory validate_mount validate_commands validate_timeout validate_restart is_below_mount
    clean parts_of join resolve split_slash split_from push_part dot dot_dot equals has_prefix
    is_data_kind contains_any
attach_accepted = refl

attach_volume-detach_volume_example : detach_volume 3 attached_store ≡ ok volume_store
unfolding count find
attach_volume-detach_volume_example =
    attach_volume-detach_volume 3 1 (bytes "/data") volume_store attached_store attach_accepted
      (omega arith) (λ s f. of_found s f)
  where
    of_found :
        (s : Service)
        → find (service_with 1) volume_store.services ≡ some s
        → (s.settings.mount_path ≡ []) × (s.settings.volume_name ≡ [])
    of_found s f =
        let e : bare_service ≡ s = of_some_eq f in
        (ap (λ x. x.settings.mount_path) (sym e), ap (λ x. x.settings.volume_name) (sym e))

abbrev names : Names
names = record { network = λ p e. bytes "net"; volume_id = λ i. i + 1000 }

attach_volume-save_resources_example :
    save_resources names 1 (pos 512) (pos 1000) (bytes "/data") attached_store ≢ ok attached_store
unfolding find
attach_volume-save_resources_example =
    attach_volume-save_resources 3 1 (bytes "/data") volume_store attached_store free_volume
      attach_accepted refl refl names (λ e. absurd (omega (arith, e))) (pos 512) (pos 1000)
      (bytes "/data") attached_store
