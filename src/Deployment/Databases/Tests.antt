-- ===== src/Deployment/Databases/Tests.antt =====
-- Creating a data service from the template of Redis.
use cloudrail.Common.{[], refl, ◌≡◌, ◌∷◌}
use cloudrail.Common.Text.{bytes}
use cloudrail.Deployment.Databases.{DatabaseDraws, Site, create_database}
use cloudrail.Deployment.Databases.Laws.{IsServed, create_database-valid}
use cloudrail.Deployment.Model.{Service}
use cloudrail.Deployment.Volumes.{Names}
use cloudrail.Result.{Result, err, ok}
use cloudrail.Common.Table.{count, exists, find, select}
use cloudrail.Deployment.Settings
use cloudrail.Deployment.Databases.{
  bootstrap, check_database, database_host, database_settings, database_volume, new_database,
  sealed_rows, template_variables, write_database,
}
use cloudrail.Deployment.Templates.{catalog, data_template}
use cloudrail.Deployment.Variables.{resolve_variable, variables}
use cloudrail.Deployment.Settings.{
  is_below_mount, min_memory, normalize, private_hostname, slug, slug_byte, slug_runs,
  validate_commands, validate_mount, validate_restart, validate_timeout,
}
use cloudrail.Common.Text.{contains_any, equals, has_prefix, is_space, to_lower, trim, trim_left}
use cloudrail.Deployment.Enqueue.{
  check_queue, check_request, check_template, deployment_settings, enqueue, enqueue_checked,
  enqueue_for, enqueue_new, find_prior, insert_deployment, seal_variables, service_settings,
}
use cloudrail.Paths.{
  clean, dot, dot_dot, join, parts_of, push_part, resolve, split_from, split_slash,
}
use cloudrail.Deployment.Model.{is_data_kind}
use cloudrail.Deployment.Outside.{hex_digits, id_text}
use cloudrail.Secrets.{open_sealed, seal}
use cloudrail.Tests.{outside, service_one, store}

abbrev names : Names
names = record { network = λ p e. bytes "net"; volume_id = λ s. s }

abbrev draws : DatabaseDraws
draws = record {
  now = 10;
  service = 5;
  deployment = 6;
  nonce = λ n. n ∷ [];
  password = bytes "password";
  root_password = bytes "root";
}

abbrev site : Site
site = record {
  workspace = record {
    main = record store { services = [] };
    variables = [];
    references = [];
    buckets = [];
    bindings = [];
  };
  environments = (1, "production") ∷ [];
  hosts = [];
}

abbrev empty_row : Service
empty_row = record service_one { id = 0 }

abbrev value_of : Result (Service × Site) → Service × Site
value_of (ok x) = x
value_of (err e) = (empty_row, site)

redis_run : Service × Site
unfolding create_database
redis_run = value_of (create_database outside names draws 1 (bytes "cache") "" "redis" site)

redis_accepted :
    create_database outside names draws 1 (bytes "cache") "" "redis" site
    ≡ ok (redis_run.0, redis_run.1)
unfolding redis_run create_database check_database write_database new_database database_settings
    database_volume template_variables database_host sealed_rows bootstrap data_template catalog
    variables private_hostname slug slug_runs slug_byte to_lower trim trim_left exists enqueue
    enqueue_for enqueue_checked enqueue_new check_queue check_request find_prior insert_deployment
    deployment_settings check_template seal_variables find count is_space equals Settings.validate
    min_memory validate_mount validate_commands validate_timeout validate_restart is_below_mount
    clean parts_of join resolve split_slash split_from push_part dot dot_dot has_prefix is_data_kind
    contains_any service_settings normalize id_text hex_digits select resolve_variable open_sealed
    seal
redis_accepted = refl

create_database-valid_example : IsServed names redis_run.1 redis_run.0
create_database-valid_example =
    create_database-valid outside names draws 1 (bytes "cache") "" "redis" site redis_accepted
