-- ===== src/Builds/Tests.antt =====
-- A push that is built and deployed.
use cloudrail.Common.Int.{pos}
use cloudrail.Deployment.Settings
use cloudrail.Builds.{Build, BuildStatus, Config, SourceType, same_number, valid_sha}
use cloudrail.Builds.Flush.{
  Draws, build_request, flush, flush_builds, flush-recovers, flushable, insert_by_age, marked,
  sort_by_age,
}
use cloudrail.Builds.Histories.{BuildCall, build_run, build_run-BuildInv}
use cloudrail.Builds.Invariant.{BuildInv}
use cloudrail.Builds.Pushes.{push-again}
use cloudrail.Builds.Queue.{
  BuildDb, Push, enqueue_build, insert_build, insert_source, new_build, prior_build, push,
  push_sources, sort_sources, wants,
}
use cloudrail.Common.{List, [], refl, some, true, ◌+◌, ◌∷◌, ◌≡◌, take}
use cloudrail.Common.Table.{count, exists, find, select}
use cloudrail.Common.Text.{
  Text, bytes, contains_any, equals, has_prefix, is_digit, is_space, trim, trim_left,
}
use cloudrail.Deployment.Enqueue.{
  check_queue, check_request, check_template, deployment_settings, enqueue, enqueue_checked,
  enqueue_for, enqueue_new, find_prior, insert_deployment, new_deployment, seal_variables,
  service_settings, write_deployment,
}
use cloudrail.Deployment.Model.{Db, Deployment, Settings, is_data_kind}
use cloudrail.Deployment.Outside.{deployment_scope, hex_digits, id_text}
use cloudrail.Deployment.Settings.{
  is_below_mount, min_memory, normalize, validate_commands, validate_mount, validate_restart,
  validate_timeout,
}
use cloudrail.Deployment.Spec.{is_hex}
use cloudrail.Paths.{
  clean, dot, dot_dot, join, parts_of, push_part, resolve, split_from, split_slash,
}
use cloudrail.Result.{ok}
use cloudrail.Secrets.{seal}
use cloudrail.Tests.{clear_aead, outside, service_one, store, image, spec}

abbrev config : Config
config = record {
  repository = bytes "owner/app";
  installation = pos 1;
  branch = bytes "main";
  root = [];
  builder = bytes "railpack";
  dockerfile = [];
  build_command = [];
  start_command = bytes "run";
  port = pos 80;
  health_path = bytes "/health";
  auto_deploy = true;
}

abbrev sha : Text
sha = bytes "aaaaaaaaaaaaaaaaaaaaaaaaaaaaaaaaaaaaaaaa"

abbrev push_one : Push
push_one = record {
  delivery = bytes "d1";
  repo = bytes "owner/app";
  branch = bytes "main";
  sha = sha;
  installation = pos 1;
  now = 50;
  draw = λ n. 100 + n;
}

abbrev build_store : BuildDb
build_store = record {
  main = store;
  sources = record { service_id = 1; config = some config; source_type = SourceType.github } ∷ [];
  builds = [];
  deliveries = [];
}

abbrev pushed_build : Build
pushed_build = new_build 50 100 1 sha (bytes "webhook:d1") config

abbrev pushed_store : BuildDb
pushed_store = record build_store { builds = pushed_build ∷ []; deliveries = bytes "d1" ∷ [] }

push_accepted : push push_one build_store ≡ ok pushed_store
unfolding push push_sources sort_sources insert_source wants select exists equals same_number
    enqueue_build prior_build insert_build valid_sha is_hex is_digit trim trim_left find count
push_accepted = refl

push-again_example : push (record push_one { now = 60 }) pushed_store ≡ ok pushed_store
push-again_example =
    push-again push_one (record push_one { now = 60 }) build_store pushed_store push_accepted refl

abbrev build_calls : List BuildCall
build_calls = BuildCall.pushes push_one ∷ BuildCall.claims 60 3 ∷ BuildCall.cancels 100 ∷ []

build_run-BuildInv_example : BuildInv (build_run outside build_store build_calls).builds
build_run-BuildInv_example = build_run-BuildInv outside build_store build_calls refl

abbrev done_build : Build
done_build = record pushed_build { status = BuildStatus.succeeded; image = image }

abbrev draws : Draws
draws = record { now = 70; fresh = λ n. 200 + n; nonce = λ n. 0 ∷ []; variables = λ s. ok [] }

abbrev built_settings : Settings
built_settings = record (service_settings service_one spec) { start_command = bytes "run" }

abbrev built_row : Deployment
built_row =
    new_deployment 70 image (seal clear_aead (0 ∷ []) (bytes "{}") (deployment_scope 200))
      (build_request draws 0 done_build) built_settings

abbrev built_main : Db
built_main = write_deployment store 1 (service_settings service_one spec) built_row

build_accepted :
    enqueue outside 70 (build_request draws 0 done_build) store ≡ ok (built_row, built_main)
unfolding enqueue enqueue_for enqueue_checked enqueue_new check_queue check_request find_prior
    insert_deployment deployment_settings check_template seal_variables find count is_space equals
    build_request new_build Settings.validate min_memory validate_mount validate_commands
    validate_timeout validate_restart is_below_mount clean parts_of join resolve split_slash
    split_from push_part dot dot_dot has_prefix is_data_kind contains_any trim trim_left
    service_settings normalize id_text hex_digits
build_accepted = refl

abbrev done_store : BuildDb
done_store = record pushed_store { builds = done_build ∷ [] }

abbrev later : Draws
later = record { now = 90; fresh = λ n. 300 + n; nonce = λ n. 1 ∷ []; variables = λ s. ok [] }

first_in_queue : take 10 (sort_by_age (select flushable done_store.builds)) ≡ done_build ∷ []
unfolding sort_by_age insert_by_age select new_build
first_in_queue = refl

flush-recovers_example :
    (flush outside draws done_store
      ≡ flush_builds outside draws 1 [] (marked done_store done_build 200 built_main))
    × (flush outside later (record done_store { main = built_main })
        ≡ flush_builds outside later 1 [] (marked done_store done_build 200 built_main))
unfolding new_deployment build_request
flush-recovers_example =
    flush-recovers outside draws later done_build [] done_store built_row built_main first_in_queue
      build_accepted
