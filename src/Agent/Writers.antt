-- ===== src/Agent/Writers.antt =====
-- Containers that share a volume while a release replaces another.
use cloudrail.Agent.{
  Host, Op, PreDeploy, Target, after_pre_deploy, bring_back, candidate_ready, check_release,
  continue, direct, fail, fail_unless_done, fail_with_logs, finish, hand_over, is_cron_workload,
  is_worker, nothing, pre_deployed, prepare, previous_release, proxied, recover_volume, release,
  release_cron, remove_previous, rescue, rescued, route_release, run_work, schedule_set, send,
  set_route, start_release, stop_previous, supported, tell, verify_previous, verify_release, ◌⟫◌,
}
use cloudrail.Common.{
  Bool, Bool-cases, Option, [], arith, false, if◌then◌else◌, inl, inr, none, refl, some, subst, sym,
  true, ℕ, ◌&&◌, ◌++◌, ◌∙◌, ◌≡◌, ◌≢◌,
}
use cloudrail.Common.Text.{Text, bytes, is_empty}
use cloudrail.Deployment.Claim.{Work}
use cloudrail.Deployment.Model.{
  Deployment, Service, Status, active, checking, is_data_kind, predeploy, pulling, routing,
  starting,
}
use cloudrail.Deployment.Outside.{Env}
use cloudrail.Deployment.Settings.{public_http}
use cloudrail.Result.{Error, Result, err, ok}

-- What the code relies on of the container engine: starting a container leaves the others as they
-- are, stopping and removing one brings it down where they succeed, and no other call starts one.
pub record IsHost {W : Type 0} (h : Host W) (up : W → ℕ → Bool) : Type 0 where
  pub ensure_others :
      (d : Deployment) (env : Env) (s : W) (j : ℕ) → j ≢ d.id → up (h.ensure d env s).0 j ≡ up s j
  pub stop_done : (i : ℕ) (s : W) → (h.stop i s).1 ≡ ok tt → up (h.stop i s).0 i ≡ false
  pub remove_done : (i : ℕ) (s : W) → (h.remove i s).1 ≡ ok tt → up (h.remove i s).0 i ≡ false
  pub stop_lowers : (i : ℕ) (s : W) (j : ℕ) → up (h.stop i s).0 j ≡ true → up s j ≡ true
  pub remove_lowers : (i : ℕ) (s : W) (j : ℕ) → up (h.remove i s).0 j ≡ true → up s j ≡ true
  pub pull_lowers :
      (d : Deployment) (env : Env) (s : W) (j : ℕ) → up (h.pull d env s).0 j ≡ true → up s j ≡ true
  pub ready_lowers :
      (f : Deployment → Op W)
      → h.ready ≡ some f
      → (d : Deployment) (s : W) (j : ℕ) → up (f d s).0 j ≡ true
      → up s j ≡ true
  pub running_lowers :
      (f : Deployment → Op W)
      → h.running ≡ some f
      → (d : Deployment) (s : W) (j : ℕ) → up (f d s).0 j ≡ true
      → up s j ≡ true
  pub route_lowers :
      (v : Service) (d : Option Deployment) (s : W) (j : ℕ)
      → up (h.route v d s).0 j ≡ true
      → up s j ≡ true
  pub report_lowers :
      (i : ℕ) (status : Status) (m l : Text) (s : W) (j : ℕ)
      → up (h.report i status m l s).0 j ≡ true
      → up s j ≡ true
  pub check_lowers :
      (t : Target) (v : Service) (i : Option ℕ) (s : W) (j : ℕ)
      → up (h.check t v i s).0 j ≡ true
      → up s j ≡ true
  pub execute_lowers :
      (p : PreDeploy W)
      → h.pre_deploy ≡ some p
      → (d : Deployment) (env : Env) (s : W) (j : ℕ) → up (p.execute d env s).0 j ≡ true
      → up s j ≡ true
  pub discard_lowers :
      (p : PreDeploy W)
      → h.pre_deploy ≡ some p
      → (i : ℕ) (s : W) (j : ℕ) → up (p.discard i s).0 j ≡ true
      → up s j ≡ true

module _ {W : Type 0} (up : W → ℕ → Bool) (d p : ℕ) where
  -- the two containers do not run at once
  abbrev pub Apart : W → Type 0
  Apart s = (up s d && up s p) ≡ false

  unfoldable Keeps : Op W → Type 0
  Keeps m = (s : W) → Apart s → Apart (m s).0

  Apart-lower : (s r : W) → ((j : ℕ) → up r j ≡ true → up s j ≡ true) → Apart s → Apart r
  Apart-lower s r k a = ground (arith, k d, k p)

  Keeps-lowering : (m : Op W) → ((s : W) (j : ℕ) → up (m s).0 j ≡ true → up s j ≡ true) → Keeps m
  unfolding Keeps
  Keeps-lowering m k s a = ground (arith, k s d, k s p)

  Apart-continue :
      (r : W × Result (Unit {0})) (next : Op W) → Apart r.0 → Keeps next → Apart (continue r next).0
  unfolding Keeps
  Apart-continue (s, ok _) next a k = k s a
  Apart-continue (s, err e) next a k = a

  Keeps-then : (m next : Op W) → Keeps m → Keeps next → Keeps (m ⟫ next)
  unfolding Keeps
  Keeps-then m next k l s a = Apart-continue (m s) next (k s a) l

  Apart-rescued :
      (r : W × Result (Unit {0})) (handler : Error → Op W) (next : Op W)
      → Apart r.0
      → ((e : Error) → Keeps (handler e))
      → Keeps next
      → Apart (rescued r handler next).0
  unfolding Keeps
  Apart-rescued (s, ok _) handler next a k l = l s a
  Apart-rescued (s, err e) handler next a k l = k e s a

  Keeps-rescue :
      (m : Op W) (handler : Error → Op W) (next : Op W)
      → Keeps m
      → ((e : Error) → Keeps (handler e))
      → Keeps next
      → Keeps (rescue m handler next)
  unfolding Keeps
  Keeps-rescue m handler next k l n s a = Apart-rescued (m s) handler next (k s a) l n

  Keeps-if : (b : Bool) (m next : Op W) → Keeps m → Keeps next → Keeps (if b then m else next)
  Keeps-if true m next k l = k
  Keeps-if false m next k l = l

  -- a call after one that brings a container down where it succeeds
  Apart-after :
      (i : ℕ) (r : W × Result (Unit {0})) (next : Op W)
      → Apart r.0
      → (r.1 ≡ ok tt → up r.0 i ≡ false)
      → ((s : W) → up s i ≡ false → Apart (next s).0)
      → Apart (continue r next).0
  Apart-after i (s, ok _) next a down k = k s (down refl)
  Apart-after i (s, err e) next a down k = a

module _ {W : Type 0} (h : Host W) (up : W → ℕ → Bool) (l : IsHost h up) (w : Work) (p : Deployment)
    (env : Env) (e : w.previous ≡ some (p, env))
    (volume : is_empty w.deployment.settings.volume_name ≡ false) (n : p.id ≢ w.deployment.id) where
  abbrev K : Op W → Type 0
  K m = Keeps up w.deployment.id p.id m

  route-K : (v : Service) (o : Option Deployment) → K (set_route h v o)
  unfolding set_route
  route-K v o =
      Keeps-if up w.deployment.id p.id (public_http v) (h.route v o) (h.route v none)
        (Keeps-lowering up w.deployment.id p.id (h.route v o) (l.route_lowers v o))
        (Keeps-lowering up w.deployment.id p.id (h.route v none) (l.route_lowers v none))

  send-K : (status : Status) (m logs : Text) → K (send h w.deployment.id status m logs)
  unfolding Keeps send
  send-K status m logs s a =
      Apart-lower up w.deployment.id p.id s _ (l.report_lowers w.deployment.id status _ _ s) a

  tell-K : (status : Status) (m : Text) → K (tell h w.deployment status m)
  unfolding Keeps tell
  tell-K status m s a = send-K status m (h.logs w.deployment.id s) s a

  remove-K : (i : ℕ) → K (h.remove i)
  remove-K i = Keeps-lowering up w.deployment.id p.id (h.remove i) (l.remove_lowers i)

  check-K : (t : Target) (v : Service) (i : Option ℕ) → K (h.check t v i)
  check-K t v i = Keeps-lowering up w.deployment.id p.id (h.check t v i) (l.check_lowers t v i)

  supported-K :
      (o : Option (Deployment → Op W)) (x : Deployment)
      → ((f : Deployment → Op W) → o ≡ some f → K (f x))
      → K (supported h o x)
  unfolding Keeps
  supported-K none x k = λ s a. a
  supported-K (some f) x k = k f refl

  ready-K : (x : Deployment) (v : Service) → K (candidate_ready h x v)
  unfolding Keeps candidate_ready schedule_set
  ready-K x v =
      Keeps-if up w.deployment.id p.id (is_data_kind x.settings.kind) (supported h h.ready x) _
        (supported-K h.ready x
          (λ f g. Keeps-lowering up w.deployment.id p.id (f x) (l.ready_lowers f g x)))
        (Keeps-if up w.deployment.id p.id (is_worker v.workload) (supported h h.running x) _
          (supported-K h.running x
            (λ f g. Keeps-lowering up w.deployment.id p.id (f x) (l.running_lowers f g x)))
          (Keeps-if up w.deployment.id p.id (is_cron_workload v.workload) _ _ (λ s a. a)
            (check-K (direct x.id x.port x.health_path) v none)))

  -- bringing the previous release back, once the candidate is down
  bring_back-Apart :
      (s : W)
      → up s w.deployment.id ≡ false
      → Apart up w.deployment.id p.id (bring_back h w.service (some (p, env)) s).0
  bring_back-Apart s down =
      Apart-continue up w.deployment.id p.id (h.ensure p env s) (candidate_ready h p w.service)
        (candidate_down _ (l.ensure_others p env s w.deployment.id (λ x. n (sym x)) ∙ down))
        (ready-K p w.service)
    where
      candidate_down : (r : W) → up r w.deployment.id ≡ false → Apart up w.deployment.id p.id r
      candidate_down r k = rw k refl

  recover-K : K (recover_volume h w)
  unfolding Keeps recover_volume
  recover-K s a = rw volume (
      rw e (
        Apart-after up w.deployment.id p.id w.deployment.id (h.remove w.deployment.id s)
          (bring_back h w.service (some (p, env))) (remove-K w.deployment.id s a)
          (l.remove_done w.deployment.id s) (λ r. bring_back-Apart r)))

  verify-K : (o : Option (Deployment × Env)) → K (verify_previous h w.service o)
  unfolding Keeps
  verify-K none = λ s a. a
  verify-K (some q) =
      Keeps-if up w.deployment.id p.id (public_http w.service)
        (h.check (proxied q.0.health_path) w.service (some q.0.id)) nothing
        (check-K (proxied q.0.health_path) w.service (some q.0.id)) (λ s a. a)

  fail_with_logs-K : (cause logs : Text) → K (fail_with_logs h w cause logs)
  unfolding fail_with_logs
  fail_with_logs-K cause logs =
      Keeps-then up w.deployment.id p.id _ _
        (Keeps-then up w.deployment.id p.id _ _
          (Keeps-then up w.deployment.id p.id _ _
            (Keeps-then up w.deployment.id p.id _ _ recover-K
              (route-K w.service (previous_release h w.previous)))
            (verify-K w.previous))
          (remove-K w.deployment.id))
        (send-K Status.failed cause logs)

  fail-K : (cause : Text) → K (fail h w cause)
  unfolding Keeps fail
  fail-K cause s a = fail_with_logs-K cause (h.logs w.deployment.id s) s a

  fail_unless_done-K : (cause : Text) (x : Error) → K (fail_unless_done h w cause x)
  unfolding Keeps fail_unless_done
  fail_unless_done-K cause x s a = elim (Bool-cases (h.is_done s)) [
    | inl t ↦ rw t a
    | inr t ↦ rw t (fail-K (cause ++ h.error_text x) s a)
  ]

  remove_previous-K : (o : Option (Deployment × Env)) → K (remove_previous h o)
  unfolding Keeps
  remove_previous-K none s a = a
  remove_previous-K (some q) s a = remove-K q.0.id s a

  stop_previous-K : (o : Option (Deployment × Env)) → K (stop_previous h o)
  unfolding Keeps
  stop_previous-K none s a = a
  stop_previous-K (some q) s a = Apart-lower up w.deployment.id p.id s _ (l.stop_lowers q.0.id s) a

  finish-K : K (finish h w)
  unfolding finish
  finish-K = Keeps-then up w.deployment.id p.id _ _ (tell-K active _) (stop_previous-K w.previous)

  verify_release-K : K (verify_release h w)
  unfolding verify_release
  verify_release-K =
      Keeps-if up w.deployment.id p.id (public_http w.service) _ (finish h w)
        (Keeps-rescue up w.deployment.id p.id _ (fail_unless_done h w []) (finish h w)
          (check-K (proxied w.deployment.health_path) w.service (some w.deployment.id))
          (fail_unless_done-K []) finish-K)
        finish-K

  route_release-K : K (route_release h w)
  unfolding route_release
  route_release-K = Keeps-then up w.deployment.id p.id _ _ (tell-K routing _) (
      Keeps-rescue up w.deployment.id p.id _ _ (verify_release h w)
        (route-K w.service (some w.deployment)) (λ x. fail-K _) verify_release-K)

  check_release-K : K (check_release h w)
  unfolding check_release
  check_release-K = Keeps-then up w.deployment.id p.id _ _ (tell-K checking _) (
      Keeps-rescue up w.deployment.id p.id _ (fail_unless_done h w []) (route_release h w)
        (ready-K w.deployment w.service) (fail_unless_done-K []) route_release-K)

  -- starting the candidate, once the previous release is down
  ensure-Apart :
      (s : W)
      → up s p.id ≡ false
      → Apart up w.deployment.id p.id
          (rescue
            (h.ensure w.deployment w.env)
            (fail_unless_done h w (bytes "container start failed: "))
            (check_release h w)
            s).0
  ensure-Apart s down =
      Apart-rescued up w.deployment.id p.id (h.ensure w.deployment w.env s)
        (fail_unless_done h w (bytes "container start failed: ")) (check_release h w)
        (previous_down _ (l.ensure_others w.deployment w.env s p.id n ∙ down))
        (fail_unless_done-K (bytes "container start failed: ")) check_release-K
    where
      previous_down : (r : W) → up r p.id ≡ false → Apart up w.deployment.id p.id r
      previous_down r k = ground arith

  hand_over-K : K (hand_over h w.service (some (p, env)))
  hand_over-K =
      Keeps-then up w.deployment.id p.id (h.route w.service none) (h.stop p.id)
        (Keeps-lowering up w.deployment.id p.id (h.route w.service none)
          (l.route_lowers w.service none))
        (Keeps-lowering up w.deployment.id p.id (h.stop p.id) (l.stop_lowers p.id))

  hand_over-down :
      (s : W)
      → (hand_over h w.service (some (p, env)) s).1 ≡ ok tt
      → up (hand_over h w.service (some (p, env)) s).0 p.id ≡ false
  hand_over-down s = after_route (h.route w.service none s)
    where
      after_route :
          (r : W × Result (Unit {0}))
          → (continue r (h.stop p.id)).1 ≡ ok tt
          → up (continue r (h.stop p.id)).0 p.id ≡ false
      after_route (r, ok _) k = l.stop_done p.id r k
      after_route (r, err x) k = absurd (cc)

  -- the first step of starting the candidate
  abbrev first_step : Bool → Op W
  first_step b = if b then nothing else hand_over h w.service w.previous

  first_step-K : K (first_step (is_empty w.deployment.settings.volume_name))
  first_step-K =
      subst (λ b. K (first_step b)) (sym volume)
        (subst (λ o. K (hand_over h w.service o)) (sym e) hand_over-K)

  first_step-down :
      (s : W)
      → (first_step (is_empty w.deployment.settings.volume_name) s).1 ≡ ok tt
      → up (first_step (is_empty w.deployment.settings.volume_name) s).0 p.id ≡ false
  first_step-down s =
      subst (λ b. (first_step b s).1 ≡ ok tt → up (first_step b s).0 p.id ≡ false) (sym volume)
        (subst
          (λ o.
            (hand_over h w.service o s).1 ≡ ok tt → up (hand_over h w.service o s).0 p.id ≡ false)
          (sym e) (hand_over-down s))

  start_release-K : K (start_release h w)
  unfolding Keeps start_release
  start_release-K s a =
      Apart-after up w.deployment.id p.id p.id
        (first_step (is_empty w.deployment.settings.volume_name) s)
        (rescue (h.ensure w.deployment w.env)
          (fail_unless_done h w (bytes "container start failed: ")) (check_release h w))
        (first_step-K s a) (first_step-down s) ensure-Apart

  release-K : K (release h w)
  unfolding release release_cron
  release-K = Keeps-then up w.deployment.id p.id _ _ (tell-K starting _) (
      Keeps-if up w.deployment.id p.id (is_cron_workload w.service.workload) _ (start_release h w)
        (Keeps-rescue up w.deployment.id p.id _ _ _ (route-K w.service none) (λ x. fail-K _)
          (Keeps-then up w.deployment.id p.id _ _ (tell-K active _) (remove_previous-K w.previous)))
        start_release-K)

  after_pre_deploy-Apart :
      (q : PreDeploy W)
      → h.pre_deploy ≡ some q
      → (r : W × (Text × Result (Unit {0}))) → Apart up w.deployment.id p.id r.0
      → Apart up w.deployment.id p.id (after_pre_deploy h w q r).0
  unfolding Keeps after_pre_deploy
  after_pre_deploy-Apart q g (s, (logs, ok _)) a =
      Keeps-then up w.deployment.id p.id (q.discard w.deployment.id) (release h w)
        (Keeps-lowering up w.deployment.id p.id (q.discard w.deployment.id)
          (l.discard_lowers q g w.deployment.id))
        release-K s a
  after_pre_deploy-Apart q g (s, (logs, err x)) a = elim (Bool-cases (h.is_done s)) [
    | inl t ↦ rw t a
    | inr t ↦ rw t (
        fail_with_logs-K _ logs (q.discard w.deployment.id s).0
          (Apart-lower up w.deployment.id p.id s _ (l.discard_lowers q g w.deployment.id s) a))
  ]

  executed-K :
      (q : PreDeploy W)
      → h.pre_deploy ≡ some q
      → K (λ s. after_pre_deploy h w q (q.execute w.deployment w.env s))
  unfolding Keeps
  executed-K q g s a = after_pre_deploy-Apart q g (q.execute w.deployment w.env s) (
      Apart-lower up w.deployment.id p.id s (q.execute w.deployment w.env s).0
        (l.execute_lowers q g w.deployment w.env s) a)

  report-K : (status : Status) (m logs : Text) → K (h.report w.deployment.id status m logs)
  report-K status m logs =
      Keeps-lowering up w.deployment.id p.id (h.report w.deployment.id status m logs)
        (l.report_lowers w.deployment.id status m logs)

  pre_deployed-K : (o : Option (PreDeploy W)) → h.pre_deploy ≡ o → K (pre_deployed h w o)
  pre_deployed-K none g = fail-K _
  pre_deployed-K (some q) g =
      Keeps-then up w.deployment.id p.id _ _ (report-K predeploy _ []) (executed-K q g)

  prepare-K : K (prepare h w)
  unfolding prepare
  prepare-K =
      Keeps-if up w.deployment.id p.id (is_empty w.deployment.settings.pre_deploy_command)
        (release h w) (pre_deployed h w h.pre_deploy) release-K (pre_deployed-K h.pre_deploy refl)

  run_work-K : K (run_work h w)
  unfolding run_work
  run_work-K = Keeps-then up w.deployment.id p.id _ _ (tell-K pulling _) (
      Keeps-rescue up w.deployment.id p.id _ _ (prepare h w)
        (Keeps-lowering up w.deployment.id p.id (h.pull w.deployment w.env)
          (l.pull_lowers w.deployment w.env))
        (fail_unless_done-K (bytes "image pull failed: ")) prepare-K)

  -- On a host that behaves as IsHost says, a release that keeps its data on a volume and another
  -- release before it are not both left running by Run, however it ends: with success, with a failure
  -- of any of its calls or of the recovery from one, or cancelled, if they were not both running
  -- before.
  pub run_work-Apart :
      (s : W) → Apart up w.deployment.id p.id s → Apart up w.deployment.id p.id (run_work h w s).0
  unfolding Keeps
  run_work-Apart s a = run_work-K s a
