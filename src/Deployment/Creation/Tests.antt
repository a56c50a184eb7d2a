-- ===== src/Deployment/Creation/Tests.antt =====
-- Creating an application in a project's first environment.
use cloudrail.Deployment.Settings
use cloudrail.Common.{[], none, refl, some, ◌∷◌, ◌≡◌}
use cloudrail.Common.Table.{exists, find}
use cloudrail.Common.Text.{bytes, is_alphanumeric, is_digit, is_lower, is_upper}
use cloudrail.Deployment.Creation.{Registry, create_compute, new_host, new_service}
use cloudrail.Deployment.Creation.Laws.{create_compute-valid}
use cloudrail.Deployment.Model.{ComputeSpec, Service, Workload}
use cloudrail.Deployment.Settings.{is_web, public_http}
use cloudrail.Deployment.Spec.{name_byte, valid_name, validate_compute}
use cloudrail.Deployment.Volumes.{Names, service_with}
use cloudrail.Result.{ok}
use cloudrail.Tests.{store}

abbrev names : Names
names = record { network = λ p e. bytes "net"; volume_id = λ s. s }

abbrev registry : Registry
registry = record {
  main = record store { services = [] };
  projects = (1, bytes "p") ∷ [];
  environments = (1, "production") ∷ [];
  hosts = [];
  origins = [];
}

abbrev web_spec : ComputeSpec
web_spec = record {
  name = bytes "web";
  environment = "production";
  workload = Workload.web;
  source_type = "image";
}

abbrev created : Service
created = new_service names 5 1 web_spec

abbrev created_registry : Registry
created_registry = record registry {
  main = record store { services = created ∷ [] };
  hosts = record { service_id = 5; host = new_host 5 [] } ∷ [];
  origins = record { service_id = 5; source_type = "image" } ∷ [];
}

create_accepted : create_compute names 5 [] 1 web_spec registry ≡ ok (created, created_registry)
unfolding create_compute validate_compute valid_name name_byte is_alphanumeric is_lower is_upper
    is_digit exists
create_accepted = refl

create_compute-valid_example :
    (Settings.validate created.settings ≡ ok tt)
    × (created.active_id ≡ none)
    × (public_http created ≡ is_web web_spec.workload)
    × (find (service_with 5) created_registry.main.services ≡ some created)
create_compute-valid_example = create_compute-valid names 5 [] 1 web_spec registry create_accepted
