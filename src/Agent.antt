-- ===== src/Agent.antt =====
-- agent/runner.go and persistent.go: running a piece of work. The container
-- engine, the proxy's routes and the server that takes the reports stand as parameters.
pub mod Actions
pub mod Writers
pub mod Tests
use cloudrail.Common.{
  Bool, Option, [], false, if◌then◌else◌, is_some, none, not, some, true, ℕ, ◌++◌, ◌||◌,
}
use cloudrail.Common.Int.{ℤ}
use cloudrail.Common.Text.{Text, bytes, first_bytes, is_empty, last_bytes}
use cloudrail.Common.Utf8.{to_valid_utf8}
use cloudrail.Deployment.Actions.{is_done, report_action}
use cloudrail.Deployment.Claim.{Work}
use cloudrail.Deployment.Model.{
  ActionStatus, Deployment, Service, Status, Workload, active, checking, cron, is_data_kind,
  predeploy, pulling, routing, starting, worker,
}
use cloudrail.Deployment.Outside.{Env}
use cloudrail.Deployment.Report.{redact, report}
use cloudrail.Deployment.Settings.{public_http}
use cloudrail.Result.{Error, Result, context_done, cron_schedule, err, ok, unsupported}

-- A call that changes the world and may fail.
abbrev pub Op : Type 0 → Type 0
Op W = W → W × Result (Unit {0})

-- what Check asks: a path through the proxy, or a container, its port and a path
pub data Target : Type 0 where
  proxied : Text → Target
  direct : ℕ → ℤ → Text → Target

-- PreDeployRuntime
pub record PreDeploy (W : Type 0) : Type 0 where
  pub execute : Deployment → Env → W → W × (Text × Result (Unit {0}))
  pub discard : ℕ → Op W

-- The fields of Runner, and what the code asks of a context and of an error. The interfaces that a
-- runtime may lack are options.
pub record Host (W : Type 0) : Type 0 where
  pub pull : Deployment → Env → Op W
  pub ensure : Deployment → Env → Op W
  pub stop : ℕ → Op W
  pub remove : ℕ → Op W
  pub logs : ℕ → W → Text
  pub pre_deploy : Option (PreDeploy W)
  pub ready : Option (Deployment → Op W)
  pub running : Option (Deployment → Op W)
  pub route : Service → Option Deployment → Op W
  pub report : ℕ → Status → Text → Text → Op W
  pub report_action : ℕ → ActionStatus → Text → Op W
  pub check : Target → Service → Option ℕ → Op W
  pub back_up : Work → Op W
  pub redact : Option (Text → Text)
  pub is_done : W → Bool
  pub error_text : Error → Text

module _ {W : Type 0} where
  abbrev pub continue : W × Result (Unit {0}) → Op W → W × Result (Unit {0})
  continue (s, ok _) next = next s
  continue (s, err e) next = (s, err e)

  -- `if err := m; err != nil { return err }`
  infixl 5 ◌⟫◌
  abbrev pub ◌⟫◌ : Op W → Op W → Op W
  (m ⟫ next) s = continue (m s) next

  abbrev pub rescued : W × Result (Unit {0}) → (Error → Op W) → Op W → W × Result (Unit {0})
  rescued (s, ok _) handler next = next s
  rescued (s, err e) handler next = handler e s

  -- `if err := m; err != nil { return handler(err) }`
  abbrev pub rescue : Op W → (Error → Op W) → Op W → Op W
  rescue m handler next s = rescued (m s) handler next

  -- `_ = m`
  abbrev pub ignore : Op W → Op W
  ignore m s = ((m s).0, ok tt)

  abbrev pub nothing : Op W
  nothing s = (s, ok tt)

abbrev pub with_redact : Option (Text → Text) → Text → Text
with_redact none t = t
with_redact (some f) t = f t

abbrev pub is_cron_workload : Workload → Bool
is_cron_workload Workload.cron = true
is_cron_workload _ = false

abbrev pub is_worker : Workload → Bool
is_worker Workload.worker = true
is_worker _ = false

module _ {W : Type 0} (h : Host W) where
  -- setRoute
  unfoldable pub set_route : Service → Option Deployment → Op W
  set_route s d = if public_http s then h.route s d else h.route s none

  unfoldable pub send : ℕ → Status → Text → Text → Op W
  send id status message logs =
      h.report id status (to_valid_utf8 (first_bytes 1800 (with_redact h.redact message)))
        (to_valid_utf8 (last_bytes 16000 (with_redact h.redact logs)))

  -- Runner.report
  unfoldable pub tell : Deployment → Status → Text → Op W
  unfolding send
  tell d status message s = send d.id status message (h.logs d.id s) s

  abbrev pub supported : Option (Deployment → Op W) → Deployment → Op W
  supported none d s = (s, err unsupported)
  supported (some f) d s = f d s

  unfoldable pub schedule_set : Service → Op W
  schedule_set s w = (
    w,
    if is_empty s.cron_schedule || not (is_some s.cron_next_run) then err cron_schedule else ok tt,
  )

  -- candidateReady
  unfoldable pub candidate_ready : Deployment → Service → Op W
  unfolding schedule_set
  candidate_ready d s =
      if is_data_kind d.settings.kind
      then supported h.ready d
      else if is_worker s.workload
      then supported h.running d
      else if is_cron_workload s.workload
      then schedule_set s
      else h.check (direct d.id d.port d.health_path) s none

  abbrev pub bring_back : Service → Option (Deployment × Env) → Op W
  bring_back s none = nothing
  bring_back s (some p) = h.ensure p.0 p.1 ⟫ candidate_ready p.0 s

  -- the first branch of failWithLogs
  unfoldable pub recover_volume : Work → Op W
  unfolding candidate_ready
  recover_volume w =
      if is_empty w.deployment.settings.volume_name
      then nothing
      else h.remove w.deployment.id ⟫ bring_back w.service w.previous

  abbrev pub previous_release : Option (Deployment × Env) → Option Deployment
  previous_release none = none
  previous_release (some p) = some p.0

  abbrev pub verify_previous : Service → Option (Deployment × Env) → Op W
  verify_previous s none = nothing
  verify_previous s (some p) =
      if public_http s then h.check (proxied p.0.health_path) s (some p.0.id) else nothing

  -- failWithLogs
  unfoldable pub fail_with_logs : Work → Text → Text → Op W
  unfolding recover_volume set_route send
  fail_with_logs w cause logs =
      recover_volume w
      ⟫ set_route w.service (previous_release w.previous)
      ⟫ verify_previous w.service w.previous
      ⟫ h.remove w.deployment.id
      ⟫ send w.deployment.id Status.failed cause logs

  -- fail
  unfoldable pub fail : Work → Text → Op W
  unfolding fail_with_logs
  fail w cause s = fail_with_logs w cause (h.logs w.deployment.id s) s

  -- `if ctx.Err() != nil { return ctx.Err() }; return r.fail(...)`
  unfoldable pub fail_unless_done : Work → Text → Error → Op W
  unfolding fail
  fail_unless_done w cause e s =
      if h.is_done s then (s, err context_done) else fail w (cause ++ h.error_text e) s

  abbrev pub remove_previous : Option (Deployment × Env) → Op W
  remove_previous none = nothing
  remove_previous (some p) = ignore (h.remove p.0.id)

  abbrev pub stop_previous : Option (Deployment × Env) → Op W
  stop_previous none = nothing
  stop_previous (some p) = ignore (h.stop p.0.id)

  abbrev pub hand_over : Service → Option (Deployment × Env) → Op W
  hand_over s none = nothing
  hand_over s (some p) = h.route s none ⟫ h.stop p.0.id

  -- the last part of Run: the report that the release is active
  unfoldable pub finish : Work → Op W
  unfolding tell
  finish w =
      tell w.deployment active (
        if public_http w.service
        then bytes "Deployment is serving through the proxy"
        else bytes "Deployment is active on the private network")
      ⟫ stop_previous w.previous

  unfoldable pub verify_release : Work → Op W
  unfolding finish fail_unless_done
  verify_release w =
      if public_http w.service
      then rescue (h.check (proxied w.deployment.health_path) w.service (some w.deployment.id))
          (fail_unless_done w []) (finish w)
      else finish w

  unfoldable pub route_release : Work → Op W
  unfolding verify_release set_route tell fail
  route_release w =
      tell w.deployment routing (
        if public_http w.service
        then bytes "Switching route and verifying through Traefik"
        else bytes "Activating private release")
      ⟫ rescue (set_route w.service (some w.deployment))
          (λ e. fail w (bytes "route update failed: " ++ h.error_text e)) (verify_release w)

  unfoldable pub check_release : Work → Op W
  unfolding route_release candidate_ready tell fail_unless_done
  check_release w =
      tell w.deployment checking
        (bytes "Checking candidate readiness; current release stays online")
      ⟫ rescue (candidate_ready w.deployment w.service) (fail_unless_done w []) (route_release w)

  -- the container is started after the release that shares its volume was stopped
  unfoldable pub start_release : Work → Op W
  unfolding check_release fail_unless_done
  start_release w =
      (if is_empty w.deployment.settings.volume_name
        then nothing
        else hand_over w.service w.previous)
      ⟫ rescue (h.ensure w.deployment w.env) (fail_unless_done w (bytes "container start failed: "))
          (check_release w)

  unfoldable pub release_cron : Work → Op W
  unfolding set_route fail tell
  release_cron w =
      rescue (set_route w.service none)
        (λ e. fail w (bytes "route cleanup failed: " ++ h.error_text e))
        (tell w.deployment active (bytes "Cron release is ready for its next scheduled run")
          ⟫ remove_previous w.previous)

  unfoldable pub release : Work → Op W
  unfolding release_cron start_release tell
  release w =
      tell w.deployment starting (bytes "Starting isolated candidate container")
      ⟫ (if is_cron_workload w.service.workload then release_cron w else start_release w)

  -- after PreDeploy returned its logs and its error
  unfoldable pub after_pre_deploy :
      Work → PreDeploy W → W × (Text × Result (Unit {0})) → W × Result (Unit {0})
  unfolding release fail_with_logs
  after_pre_deploy w p (s, (logs, ok _)) = (p.discard w.deployment.id ⟫ release w) s
  after_pre_deploy w p (s, (logs, err e)) =
      if h.is_done s
      then (s, err context_done)
      else fail_with_logs w (bytes "pre-deploy command failed: " ++ h.error_text e) logs
          (p.discard w.deployment.id s).0

  abbrev pub pre_deployed : Work → Option (PreDeploy W) → Op W
  pre_deployed w none = fail w (bytes "runtime does not support pre-deploy commands")
  pre_deployed w (some p) =
      h.report w.deployment.id predeploy
        (bytes "Running pre-deploy command in an isolated container") []
      ⟫ λ s. after_pre_deploy w p (p.execute w.deployment w.env s)

  unfoldable pub prepare : Work → Op W
  unfolding after_pre_deploy fail release
  prepare w =
      if is_empty w.deployment.settings.pre_deploy_command
      then release w
      else pre_deployed w h.pre_deploy

  -- Runner.Run
  unfoldable pub run_work : Work → Op W
  unfolding prepare tell fail_unless_done
  run_work w =
      tell w.deployment pulling (bytes "Fetching pinned image")
      ⟫ rescue (h.pull w.deployment w.env) (fail_unless_done w (bytes "image pull failed: "))
          (prepare w)
