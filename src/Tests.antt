-- ===== src/Tests.antt =====
-- A store with one service, a cipher that keeps its text, and the theorems at concrete calls.
use cloudrail.Common.Int.{pos}
use cloudrail.Deployment.Spec
use cloudrail.Common.{All, List, [], arith, false, none, refl, some, true, ℕ, ◌∷◌, ◌≡◌, ◌≢◌}
use cloudrail.Common.Table.{count, exists, find, first_by, update}
use cloudrail.Common.Text.{
  Text, bytes, contains_any, equals, has_prefix, is_digit, is_lower, is_space,
}
use cloudrail.Deployment.Claim.{
  Turn, Work, ahead_of, claim, claim_deployment, claim_due, claim_from, due_deployment, expire,
  previous_of, start_deployment, deployment_before,
}
use cloudrail.Deployment.Claim.Fencing.{claim-report-Fenced}
use cloudrail.Deployment.Claim.Laws.{claim-InOrder}
use cloudrail.Deployment.Enqueue.{
  Request, check_queue, check_request, check_template, deployment_settings, enqueue,
  enqueue_checked, enqueue_for, enqueue_new, find_prior, insert_deployment, new_deployment,
  seal_variables, service_settings, with_settings, write_deployment,
}
use cloudrail.Deployment.Enqueue.Repeats.{again, enqueue-again}
use cloudrail.Deployment.Histories.{Call, run}
use cloudrail.Deployment.Histories.Laws.{OneActive, empty-Inv, run-Inv, run-OneActive}
use cloudrail.Deployment.Invariant.{Inv}
use cloudrail.Deployment.Invariant.Queueing.{enqueue-Inv}
use cloudrail.Deployment.Jobs.{fresh_lease, is_due, is_expired, may_start, started}
use cloudrail.Deployment.Model.{
  Db, Deployment, DesiredState, Report, ResourceKind, RestartPolicy, Service, Settings, Spec,
  Workload, active, http, terminal,
}
use cloudrail.Deployment.Outside.{Outside, deployment_env, deployment_scope}
use cloudrail.Deployment.Report.{report}
use cloudrail.Deployment.Settings.{normalize}
use cloudrail.Deployment.Spec.{
  image_byte, is_hex, match_digest, match_image, match_repository, valid_health_path,
}
use cloudrail.Deployment.Spec.Laws.{IsValidSpec, validate-IsValidSpec}
use cloudrail.Result.{ok}
use cloudrail.Secrets.{Aead, open_sealed, seal}
use cloudrail.Secrets.RoundTrip.{open-seal}

abbrev pub clear_aead : Aead
clear_aead = record { nonce_size = 1; encrypt = λ n v s. v; decrypt = λ n c s. some c }

abbrev pub outside : Outside
outside = record {
  cipher = some clear_aead;
  marshal = λ env. bytes "{}";
  unmarshal = λ t. some [];
  request_hash = λ spec command. spec.image;
}

abbrev pub settings : Settings
settings = record {
  kind = http;
  memory_mb = pos 256;
  cpu_millis = pos 1000;
  mount_path = bytes "/data";
  volume_name = [];
  network = bytes "net";
  start_command = [];
  pre_deploy_command = [];
  pre_deploy_timeout_seconds = pos 0;
  restart_policy = RestartPolicy.on_failure;
  restart_max_retries = pos 10;
  private_host = bytes "a.internal";
  public_enabled = none;
  target_port = pos 80;
}

abbrev pub service_one : Service
service_one = record {
  id = 1;
  project = 1;
  environment = "production";
  name = bytes "a";
  active_id = none;
  desired_state = DesiredState.running;
  settings = settings;
  resource_kind = ResourceKind.service;
  workload = Workload.web;
  template_key = "";
  template_version = "";
  cron_schedule = [];
  cron_next_run = none;
}

abbrev pub store : Db
store = record {
  services = service_one ∷ [];
  deployments = [];
  events = [];
  actions = [];
  runs = [];
  backups = [];
  volumes = [];
  attachments = [];
}

abbrev pub image : Text
image = bytes "a@sha256:aaaaaaaaaaaaaaaaaaaaaaaaaaaaaaaaaaaaaaaaaaaaaaaaaaaaaaaaaaaaaaaa"

abbrev pub spec : Spec
spec = record { image = image; port = pos 80; health_path = bytes "/health" }

abbrev request : Request
request = record {
  service_id = 1;
  spec = spec;
  start_command = none;
  key = bytes "k";
  fresh = 7;
  nonce = 0 ∷ [];
  variables = ok [];
}

abbrev pub turn : Turn
turn = record { now = 20; token = 5; fresh = 9; parse = λ s now. none }

abbrev activation : Report
activation = record { attempt = some 5; status = some active; message = []; logs = [] }

abbrev calls : List (ℕ × Call)
calls = (10, Call.enqueues request) ∷ (20, Call.claims turn) ∷ (30, Call.reports 7 activation) ∷ []

run-OneActive_example :
    All
      (λ d. All (OneActive d) (run outside store calls).deployments)
      (run outside store calls).deployments
run-OneActive_example = run-OneActive outside store calls refl

run-Inv_example : Inv (run outside store calls)
run-Inv_example = run-Inv outside store calls refl

abbrev pub queued_row : Deployment
queued_row =
    new_deployment 10 image (seal clear_aead (0 ∷ []) (bytes "{}") (deployment_scope 7)) request
      (service_settings service_one spec)

abbrev pub queued_store : Db
queued_store = write_deployment store 1 (service_settings service_one spec) queued_row

request_accepted : enqueue outside 10 request store ≡ ok (queued_row, queued_store)
unfolding enqueue enqueue_for enqueue_checked enqueue_new check_queue check_request find_prior
    insert_deployment deployment_settings check_template seal_variables find count is_space equals
request_accepted = refl

enqueue-again_example :
    enqueue outside 40 (again request 8 (1 ∷ []) (ok [])) queued_store
    ≡ ok (queued_row, queued_store)
enqueue-again_example =
    enqueue-again outside 10 request store queued_row queued_store refl request_accepted 40 8
      (1 ∷ []) (ok [])

abbrev claimed_work : Work
claimed_work = record {
  attempt = 5;
  action = none;
  run = none;
  deployment = queued_row;
  service = with_settings (service_settings service_one spec) service_one;
  env = [];
  previous = none;
}

abbrev claimed_store : Db
claimed_store = record queued_store { deployments = start_deployment 20 5 queued_row ∷ [] }

claim_accepted : claim outside turn queued_store ≡ ok (some claimed_work, claimed_store)
unfolding claim claim_due claim_from expire claim_deployment due_deployment first_by exists update
    find deployment_env open_sealed seal may_start started is_due is_expired previous_of
    write_deployment new_deployment fresh_lease terminal normalize service_settings
claim_accepted = refl

queued_store-Inv : Inv queued_store
queued_store-Inv = enqueue-Inv outside 10 request store request_accepted (empty-Inv store refl)

claim-InOrder_example :
    All
      (λ e.
        e.service_id ≡ queued_row.service_id
        → terminal e.status ≡ false
        → deployment_before e queued_row ≡ false)
      claimed_store.deployments
    × All
        (λ e.
          terminal e.status ≡ false
          → is_due 20 e.lease ≡ true
          → deployment_before e queued_row ≡ true
          → exists (ahead_of e) (expire 20 queued_store).deployments ≡ true)
        (expire 20 queued_store).deployments
claim-InOrder_example = claim-InOrder outside turn queued_store claim_accepted refl refl

abbrev stale_report : Report
stale_report = record { attempt = some 4; status = some active; message = []; logs = [] }

claim-report-Fenced_example : report outside 30 7 stale_report claimed_store ≢ ok claimed_store
unfolding new_deployment
claim-report-Fenced_example =
    claim-report-Fenced outside turn queued_store claimed_work claimed_store queued_store-Inv
      claim_accepted refl refl 30 stale_report active 4 refl refl (λ e. absurd (omega (arith, e)))
      claimed_store

open-seal_example :
    open_sealed clear_aead
      (seal clear_aead (0 ∷ []) (bytes "secret") (bytes "variable:1:a"))
      (bytes "variable:1:a")
    ≡ ok (bytes "secret")
open-seal_example =
    open-seal clear_aead (0 ∷ []) (bytes "secret") (bytes "variable:1:a") refl (λ n v s. refl)

spec_accepted : Spec.validate spec ≡ ok tt
unfolding Spec.validate match_image match_repository match_digest is_hex image_byte is_digit
    is_lower valid_health_path has_prefix contains_any
spec_accepted = refl

validate-IsValidSpec_example : IsValidSpec spec
validate-IsValidSpec_example = validate-IsValidSpec spec spec_accepted
