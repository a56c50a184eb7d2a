-- ===== src/Agent/Actions.antt =====
-- agent/actions.go and reconcile.go: the actions on a service, and bringing the services of the host to
-- their desired state.
use cloudrail.Deployment.Actions.{saves}
use cloudrail.Agent.{Host, Op, candidate_ready, is_cron_workload, nothing, proxied, set_route, ◌⟫◌}
use cloudrail.Common.{
  Bool, List, [], false, if◌then◌else◌, is_some, none, not, some, suc, true, ℕ, ◌∷◌,
}
use cloudrail.Common.Text.{bytes}
use cloudrail.Deployment.Actions.{is_running}
use cloudrail.Deployment.Claim.{Work}
use cloudrail.Deployment.Model.{Action, ActionKind, ActionStatus}
use cloudrail.Deployment.Settings.{public_http}
use cloudrail.Result.{Result, context_done, err, ok}

module _ {W : Type 0} (h : Host W) where
  abbrev stops : ActionKind → Bool
  stops ActionKind.stop = true
  stops ActionKind.restart = true
  stops _ = false

  abbrev only_stops : ActionKind → Bool
  only_stops ActionKind.stop = true
  only_stops _ = false

  -- the closure `operation` of RunAction
  unfoldable pub operate : Work → ActionKind → Op W
  unfolding set_route candidate_ready
  operate w kind =
      let start =
        h.ensure w.deployment w.env
        ⟫ candidate_ready h w.deployment w.service
        ⟫ set_route h w.service (some w.deployment)
        ⟫ (if public_http w.service
            then h.check (proxied w.deployment.health_path) w.service (some w.deployment.id)
            else nothing) in
      let stop = if stops kind then h.stop w.deployment.id else nothing in
      set_route h w.service none
      ⟫ (if is_cron_workload w.service.workload
          then nothing
          else stop ⟫ (if only_stops kind then nothing else start))

  abbrev reported_action : Work → ℕ → W × Result (Unit {0}) → W × Result (Unit {0})
  reported_action w id (s, m) = if h.is_done s then (s, err context_done) else elim m [
    | ok _ ↦ h.report_action id ActionStatus.done [] s
    | err e ↦
        h.report_action id ActionStatus.failed
          (bytes "Service action failed; inspect the current release logs and retry")
          (set_route h w.service none s).0
  ]

  -- RunAction; RunBackup stands as `back_up`
  unfoldable pub run_action : Work → Action → Op W
  unfolding operate
  run_action w a s =
      if saves a.kind then h.back_up w s else reported_action w a.id (operate w a.kind s)

  -- the body of the loop of Reconcile
  unfoldable pub reconcile_one : Work → Op W
  unfolding set_route candidate_ready
  reconcile_one w =
      if not (is_some w.service.active_id)
      then set_route h w.service none
      else if not (is_running w.service.desired_state)
      then set_route h w.service none ⟫ h.stop w.deployment.id
      else if is_cron_workload w.service.workload
      then set_route h w.service none
      else h.ensure w.deployment w.env
        ⟫ candidate_ready h w.deployment w.service
        ⟫ set_route h w.service (some w.deployment)

  -- the loop of Reconcile, on the work that the server sent: the services whose reconciliation
  -- failed are counted, and the loop goes on
  unfoldable pub reconcile : List Work → W → W × ℕ
  unfolding reconcile_one
  reconcile [] s = (s, 0)
  reconcile (w ∷ ws) s =
      let done = reconcile_one w s in
      let rest = reconcile ws done.0 in (rest.0, elim done.1 [ ok _ ↦ rest.1 | err e ↦ suc rest.1 ])
