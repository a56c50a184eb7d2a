-- ===== src/Deployment/Invariant/Others.antt =====
-- The operations on actions and cron runs keep the invariant: they leave the deployments alone, and
-- the active releases of the services.
use cloudrail.Common.{
  Bool, Bool-cases, List, Option, ap, arith, false, if◌then◌else◌, inl, inr, none, refl, some,
  subst, true, ℕ, ◌==◌, ◌≡◌,
}
use cloudrail.Common.Table.{count, find}
use cloudrail.Common.Text.{Text, is_space, trim}
use cloudrail.Deployment.Actions.{
  action_by_id, action_finished, check_volume, desired_after, enqueue_action, is_done,
  report_action, same_action, set_desired,
}
use cloudrail.Deployment.Cron.{
  Parser, RunReport, cron_next, is_cron_service, report_run, save_schedule, scheduled,
}
use cloudrail.Deployment.Invariant.{Inv, active_of}
use cloudrail.Deployment.Invariant.Claiming.{beside-Inv}
use cloudrail.Deployment.Invariant.Rows.{active_of-update}
use cloudrail.Deployment.Jobs.{check_attempt}
use cloudrail.Deployment.Model.{Action, ActionKind, ActionStatus, Db, DesiredState, Service}
use cloudrail.Deployment.Outside.{Outside}
use cloudrail.Result.{
  >>=-eq-ok, already_finished, err, invalid_status, never_deployed, no_rows, ok, ok-injective,
  or_else, require, then-eq-ok,
}

pub set_desired-active_of :
    (o : Option DesiredState) (i : ℕ) (ss : List Service) (id : ℕ)
    → active_of (set_desired o i ss) id ≡ active_of ss id
unfolding set_desired
set_desired-active_of none i ss id = refl
set_desired-active_of (some desired) i ss id =
    active_of-update (λ s. s.id == i) (λ s. record s { desired_state = desired }) ss id (λ s. refl)
      (λ s. refl)

pub enqueue_action-Inv :
    (now fresh i : ℕ) (kind : ActionKind) (backup : Option ℕ) (db : Db) {a : Action} {q : Db}
    → enqueue_action now fresh i kind backup db ≡ ok (a, q)
    → Inv db
    → Inv q
unfolding enqueue_action
enqueue_action-Inv now fresh i kind backup db {q = q} h v =
    let (s, _, h1) = >>=-eq-ok (or_else (find (λ s. s.id == i) db.services) no_rows) _ h in
    let (release, _, h2) = >>=-eq-ok (or_else s.active_id never_deployed) _ h1 in
    let (_, h3) = then-eq-ok (check_volume kind s release db) _ h2 in
    beside-Inv db q (ground arith) v (λ id. ap (λ ss. active_of ss id) (ground arith))

pub report_action-Inv :
    (now id : ℕ) (attempt : Option ℕ) (status : ActionStatus) (message : Text) (db : Db) {q : Db}
    → report_action now id attempt status message db ≡ ok q
    → Inv db
    → Inv q
unfolding report_action
report_action-Inv now id attempt status message db {q = q} h v =
    let (_, h1) = then-eq-ok (require (action_finished status) invalid_status) _ h in
    let (a, _, h2) = >>=-eq-ok (or_else (find (action_by_id id) db.actions) no_rows) _ h1 in
    let (_, h3) = then-eq-ok (check_attempt now attempt false a.lease) _ h2 in
    elim (Bool-cases (action_finished a.status)) [
      | inl t ↦ subst Inv (by_repeat (same_action a.status status) (rw t at h3)) v
      | inr t ↦ subst Inv (ok-injective (rw t at h3)) (
          beside-Inv db _ refl v (λ j.
            set_desired-active_of (if is_done status then desired_after a.kind else none)
              a.service_id db.services j))
    ]
  where
    by_repeat : (b : Bool) → (if b then ok db else err already_finished) ≡ ok q → db ≡ q
    by_repeat true k = ok-injective k
    by_repeat false k = absurd (cc)

pub save_schedule-Inv :
    (parse : Parser) (now id : ℕ) (schedule : Text) (db : Db) {q : Db}
    → save_schedule parse now id schedule db ≡ ok q
    → Inv db
    → Inv q
unfolding save_schedule
save_schedule-Inv parse now id schedule db {q = q} h v =
    let (next, _, h1) = >>=-eq-ok (cron_next parse (trim is_space schedule) now) _ h in
    let (_, h2) = then-eq-ok (require (count (is_cron_service id) db.services == 1) no_rows) _ h1 in
    subst Inv (ok-injective h2) (
      beside-Inv db _ refl v (λ j.
        active_of-update (is_cron_service id) (scheduled (trim is_space schedule) next) db.services
          j (λ s. refl) (λ s. refl)))

pub report_run-Inv :
    (o : Outside) (now id : ℕ) (r : RunReport) (db : Db) {q : Db}
    → report_run o now id r db ≡ ok q
    → Inv db
    → Inv q
unfolding report_run
report_run-Inv o now id r db {q = q} h v =
    beside-Inv db q (ground arith) v (λ j. ap (λ ss. active_of ss j) (ground arith))
