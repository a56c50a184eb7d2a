-- ===== src/Deployment/Histories/Finality/Reporting.antt =====
-- Queueing, cancelling and reporting leave the finished deployments.
use cloudrail.Common.{
  ltb, and_right, ==_iff, Bool-cases, List, Option, ap, arith, false, inl, inr, none, of_some_eq,
  refl, some, subst, sym, true, ℕ, ◌==◌, ◌∙◌, ◌≡◌,
}
use cloudrail.Common.Table.{count, find, find-update, find_sound, update, updated}
use cloudrail.Deployment.Enqueue.{Request, enqueue, write_deployment}
use cloudrail.Deployment.Enqueue.Laws.{enqueue_cases}
use cloudrail.Deployment.Model.{Db, Deployment, Report, Status, is_active, terminal}
use cloudrail.Deployment.Outside.{Outside}
use cloudrail.Deployment.Report.{
  activate, active_with, advance, by_id, cancel, cancellable, cancelled, report, reported, settle,
  supersede, to_superseded, with_logs,
}
use cloudrail.Deployment.Report.Laws.{report_cases}
use cloudrail.Common.Text.{Text}
use cloudrail.Result.{ok, ok-injective, conflict, require, then-eq-ok, >>=-eq-ok, no_rows, or_else}
use cloudrail.Deployment.Histories.Finality.{
  Keeps, Keeps-refl, Keeps-trans, append-Keeps, update-Keeps,
}

pub enqueue-Keeps :
    (o : Outside) (now : ℕ) (r : Request) (db q : Db) (d : Deployment)
    → enqueue o now r db ≡ ok (d, q)
    → Keeps db.deployments q.deployments
unfolding write_deployment
enqueue-Keeps o now r db q d h = elim (enqueue_cases o now r db h) [
  | inl i ↦ subst (λ x. Keeps db.deployments x.deployments) (sym i.written) (append-Keeps _ d)
  | inr i ↦ subst (λ x. Keeps db.deployments x.deployments) (sym i.unchanged) (Keeps-refl _)
]

module _ (now id : ℕ) where
  pub cancel-Keeps : (db q : Db) → cancel now id db ≡ ok q → Keeps db.deployments q.deployments
  unfolding cancel
  cancel-Keeps db q h =
      let (_, h1) =
        then-eq-ok (require (ltb 0 (count (cancellable id) db.deployments)) conflict) _ h in
      subst (λ x. Keeps db.deployments x.deployments) (ok-injective h1)
        (update-Keeps (cancellable id) (cancelled now) db.deployments (λ d. refl)
          (λ i d _ k t. absurd (unfinished d k t)))
    where
      unfinished : (d : Deployment) → cancellable id d ≡ true → terminal d.status ≡ true → ⊥
      unfinished d k t = ground arith

idle : (s : Status) → terminal s ≡ false → is_active s ≡ false
unfolding terminal
idle Status.active u = absurd (cc)
idle Status.failed u = refl
idle Status.superseded u = refl
idle Status.queued u = refl
idle Status.pulling u = refl
idle Status.predeploy u = refl
idle Status.starting u = refl
idle Status.checking u = refl
idle Status.routing u = refl

-- A deployment that is not finished is not active, so that the release that it supersedes is another.
supersede-found :
    (now : ℕ) (old : Option ℕ) (ds : List Deployment) (d : Deployment)
    → find (by_id d.id) ds ≡ some d
    → terminal d.status ≡ false
    → find (by_id d.id) (supersede now old ds) ≡ some d
unfolding supersede
supersede-found now none ds d f u = f
supersede-found now (some old) ds d f u =
    find-update (by_id d.id) (active_with old) (to_superseded now) ds (λ x. refl)
    ∙ (ap (updated (active_with old) (to_superseded now)) f ∙ rw (other (idle d.status u)) refl)
  where
    other : is_active d.status ≡ false → active_with old d ≡ false
    other k = ground (arith, k)

supersede-Keeps :
    (now : ℕ) (old : Option ℕ) (ds : List Deployment) → Keeps ds (supersede now old ds)
unfolding supersede
supersede-Keeps now none ds = Keeps-refl ds
supersede-Keeps now (some old) ds =
    update-Keeps (active_with old) (to_superseded now) ds (λ d. refl)
      (λ id d _ k t. (refl, refl, inr (and_right _ _ k, refl)))

settle-Keeps :
    (now : ℕ) (d : Deployment) (status : Status) (message logs : Text) (ds : List Deployment)
    → find (by_id d.id) ds ≡ some d
    → terminal d.status ≡ false
    → Keeps ds (update (by_id d.id) (reported now status message logs) ds)
settle-Keeps now d status message logs ds f u =
    update-Keeps (by_id d.id) (reported now status message logs) ds (λ x. refl)
      (λ id x g k t.
        let same : x ≡ d = of_some_eq (
          sym g
          ∙ (ap (λ i. find (by_id i) ds)
                (sym ((==_iff x.id id).0 (find_sound (by_id id) ds g)) ∙ (==_iff x.id d.id).0 k)
              ∙ f)) in
        absurd (cc (ap (λ y. terminal y.status) same, t, u)))

advance-Keeps :
    (now : ℕ) (d : Deployment) (status : Status) (message logs : Text) (db q : Db)
    → find (by_id d.id) db.deployments ≡ some d
    → terminal d.status ≡ false
    → advance now d status message logs db ≡ ok q
    → Keeps db.deployments q.deployments
unfolding advance activate settle
advance-Keeps now d status message logs db q f u h = elim (Bool-cases (is_active status)) [
  | inl t ↦
      let (m, e, h1) = >>=-eq-ok (activate now d db) _ (rw t at h) in
      let (s, _, e1) =
        >>=-eq-ok (or_else (find (λ s. s.id == d.service_id) db.services) no_rows) _ e in
      let rest = supersede now s.active_id db.deployments in
      let after = update (by_id d.id) (reported now status message logs) rest in
      let written : q.deployments ≡ after =
        ap (λ x. x.deployments) (sym (ok-injective h1))
        ∙ ap (λ x. update (by_id d.id) (reported now status message logs) x.deployments)
            (sym (ok-injective e1)) in
      subst (Keeps db.deployments) (sym written) (
        Keeps-trans db.deployments rest after (supersede-Keeps now s.active_id db.deployments) (
          settle-Keeps now d status message logs rest
            (supersede-found now s.active_id db.deployments d f u) u))
  | inr t ↦
      subst (λ x. Keeps db.deployments x.deployments) (ok-injective (rw t at h))
        (settle-Keeps now d status message logs db.deployments f u)
]

pub report-Keeps :
    (o : Outside) (now id : ℕ) (r : Report) (db q : Db)
    → report o now id r db ≡ ok q
    → Keeps db.deployments q.deployments
report-Keeps o now id r db q h = elim (report_cases o now id r db h) [
  | inl (inl l) ↦
      subst (λ x. Keeps db.deployments x.deployments) (sym l.written)
        (update-Keeps (by_id id) (with_logs l.logs) db.deployments (λ d. refl)
          (λ _ d _ _ _. (refl, refl, inl refl)))
  | inl (inr k) ↦ subst (λ x. Keeps db.deployments x.deployments) (sym k) (Keeps-refl _)
  | inr a ↦
      let same = (==_iff a.row.id id).0 (find_sound (by_id id) db.deployments a.found) in
      advance-Keeps now a.row a.status a.message a.logs db q
        (subst (λ i. find (by_id i) db.deployments ≡ some a.row) (sym same) a.found) a.unfinished
        a.written
]
