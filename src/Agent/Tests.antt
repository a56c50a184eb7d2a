-- ===== src/Agent/Tests.antt =====
-- A container engine whose state is the set of the containers that run, and Run on it.
use cloudrail.Agent.{Host, Op, run_work}
use cloudrail.Agent.Writers.{Apart, IsHost, run_work-Apart}
use cloudrail.Common.{Bool, [], arith, false, none, not, refl, some, ℕ, ◌&&◌, ◌==◌, ◌||◌}
use cloudrail.Common.Text.{bytes}
use cloudrail.Deployment.Claim.{Work}
use cloudrail.Deployment.Model.{Deployment, Settings, active}
use cloudrail.Result.{ok}
use cloudrail.Tests.{queued_row, service_one, settings}

abbrev Containers : Type 0
Containers = ℕ → Bool

abbrev quiet : Op Containers
quiet s = (s, ok tt)

abbrev brought_down : ℕ → Op Containers
brought_down i s = ((λ j. not (j == i) && s j), ok tt)

abbrev host : Host Containers
host = record {
  pull = λ d env. quiet;
  ensure = λ d env s. ((λ j. j == d.id || s j), ok tt);
  stop = brought_down;
  remove = brought_down;
  logs = λ i s. [];
  pre_deploy = none;
  ready = none;
  running = none;
  route = λ v d. quiet;
  report = λ i status m l. quiet;
  report_action = λ i status m. quiet;
  check = λ t v i. quiet;
  back_up = λ w. quiet;
  redact = none;
  is_done = λ s. false;
  error_text = λ e. [];
}

abbrev up : Containers → ℕ → Bool
up s j = s j

host-IsHost : IsHost host up
host-IsHost = record {
  ensure_others = λ d env s j n. ground (arith, n);
  stop_done = λ i s e. ground arith;
  remove_done = λ i s e. ground arith;
  stop_lowers = λ i s j e. ground arith;
  remove_lowers = λ i s j e. ground arith;
  pull_lowers = λ d env s j e. e;
  ready_lowers = λ f g. absurd (cc);
  running_lowers = λ f g. absurd (cc);
  route_lowers = λ v d s j e. e;
  report_lowers = λ i status m l s j e. e;
  check_lowers = λ t v i s j e. e;
  execute_lowers = λ p g. absurd (cc);
  discard_lowers = λ p g. absurd (cc);
}

abbrev on_volume : Settings
on_volume = record settings { volume_name = bytes "data" }

abbrev candidate : Deployment
candidate = record queued_row { id = 2; settings = on_volume }

abbrev serving : Deployment
serving = record queued_row { id = 1; settings = on_volume; status = active }

abbrev work : Work
work = record {
  attempt = 5;
  action = none;
  run = none;
  deployment = candidate;
  service = service_one;
  env = [];
  previous = some (serving, []);
}

abbrev one_up : Containers
one_up j = j == 1

run_work-Apart_example : Apart up 2 1 (run_work host work one_up).0
run_work-Apart_example =
    run_work-Apart host up host-IsHost work serving [] refl refl (λ e. absurd (omega (arith, e)))
      one_up refl
