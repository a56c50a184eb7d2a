-- ===== src/Routes/Tests.antt =====
-- The theorem on routes at a write that stops half way.
use cloudrail.Common.{[], false, some, true, ◌∷◌}
use cloudrail.Common.Text.{bytes}
use cloudrail.Routes.{Directory, Faults, set_service, wanted}
use cloudrail.Routes.Laws.{IsPlaced, set_service-atomic}
use cloudrail.Tests.{queued_row, service_one}

abbrev faults : Faults
faults = record {
  mkdir = false;
  remove = false;
  read = false;
  create_temp = false;
  write = some (bytes "ht");
  sync = false;
  close = false;
  rename = false;
  open_dir = false;
  sync_dir = false;
}

abbrev directory : Directory
directory = record { routes = (1, bytes "old") ∷ (2, bytes "other") ∷ []; temporary = [] }

set_service-atomic_example :
    IsPlaced 1
      (wanted (λ f. f.container) true (bytes "a.example") service_one (some queued_row))
      directory
      (set_service
        (λ f. f.container)
        faults
        true
        (bytes "a.example")
        service_one
        (some queued_row)
        directory)
set_service-atomic_example =
    set_service-atomic (λ f. f.container) faults true (bytes "a.example") service_one
      (some queued_row) directory
