-- ===== src/Deployment/Report/Laws.antt =====
-- What a report that succeeds has passed, and what it has written.
use cloudrail.Common.{
  ==_iff, Bool, Bool-cases, Option, false, if◌then◌else◌, inl, inr, none, of_some_eq, refl, some,
  subst, sym, true, ℕ, ◌&&◌, ◌∙◌, ◌≡◌, ◌⊎◌,
}
use cloudrail.Common.Table.{find, find_sound, update}
use cloudrail.Common.Text.{Text}
use cloudrail.Deployment.Jobs.{check_attempt}
use cloudrail.Deployment.Model.{Db, Deployment, Report, Status, is_active, terminal}
use cloudrail.Deployment.Outside.{Env, Outside, deployment_env}
use cloudrail.Deployment.Report.{
  advance, by_id, redact, report, report_on, report_status, same_status, with_logs,
}
use cloudrail.Result.{
  >>=-eq-ok, already_finished, err, no_rows, ok, ok-injective, or_else, or_else-eq-ok, then-eq-ok,
  ◌>>=◌,
}

-- The report advanced a deployment that was not finished, under a valid attempt.
pub record IsAdvanced (now id : ℕ) (r : Report) (db db' : Db) : Type 0 where
  pub row : Deployment
  pub status : Status
  pub message : Text
  pub logs : Text
  pub found : find (by_id id) db.deployments ≡ some row
  pub given : r.status ≡ some status
  pub checked :
      check_attempt now r.attempt (is_active status && row.cancel_requested) row.lease ≡ ok tt
  pub unfinished : terminal row.status ≡ false
  pub written : advance now row status message logs db ≡ ok db'

-- The report came without a status, and changed the logs alone.
pub record IsLogged (id : ℕ) (r : Report) (db db' : Db) : Type 0 where
  pub logs : Text
  pub given : r.status ≡ none
  pub written : db' ≡ record db { deployments = update (by_id id) (with_logs logs) db.deployments }

status_cases :
    (now : ℕ) (r : Report) (d : Deployment) (env : Env) (db : Db) {db' : Db}
    → (o : Option Status) → r.status ≡ o
    → find (by_id d.id) db.deployments ≡ some d
    → report_on now r d env db ≡ ok db'
    → (IsLogged d.id r db db' ⊎ (db' ≡ db)) ⊎ IsAdvanced now d.id r db db'
unfolding report_on report_status
status_cases now r d env db none e f h =
    inl (
      inl
        (record { logs = redact env r.logs; given = e; written = ok-injective (sym (rw e at h)) }))
status_cases now r d env db (some st) e f h =
    let (c, h1) =
      then-eq-ok (check_attempt now r.attempt (is_active st && d.cancel_requested) d.lease)
        (if terminal d.status
          then (if same_status d.status st then ok db else err already_finished)
          else advance now d st (redact env r.message) (redact env r.logs) db)
        (rw e at h) in
    elim (Bool-cases (terminal d.status)) [
      | inl t ↦ inl (inr (repeated (same_status d.status st) (rw t at h1)))
      | inr t ↦ inr (record {
        row = d;
        status = st;
        message = redact env r.message;
        logs = redact env r.logs;
        found = f;
        given = e;
        checked = c;
        unfinished = t;
        written = rw t at h1;
      })
    ]
  where
    repeated : (b : Bool) {q : Db} → (if b then ok db else err already_finished) ≡ ok q → q ≡ db
    repeated true k = sym (ok-injective k)
    repeated false k = absurd (cc)

-- A report that succeeds changes the logs alone, or nothing, or advances an unfinished deployment.
pub report_cases :
    (o : Outside) (now id : ℕ) (r : Report) (db : Db) {db' : Db}
    → report o now id r db ≡ ok db'
    → (IsLogged id r db db' ⊎ (db' ≡ db)) ⊎ IsAdvanced now id r db db'
unfolding report
report_cases o now id r db {db' = db'} h =
    let (d, f, h1) =
      >>=-eq-ok (or_else (find (by_id id) db.deployments) no_rows)
        (λ d. deployment_env o d >>= λ env. report_on now r d env db) h in
    let (env, _, h2) = >>=-eq-ok (deployment_env o d) (λ env. report_on now r d env db) h1 in
    let e = or_else-eq-ok _ _ f in
    let same = (==_iff d.id id).0 (find_sound (by_id id) db.deployments e) in
    subst (λ i. (IsLogged i r db db' ⊎ (db' ≡ db)) ⊎ IsAdvanced now i r db db') same
      (status_cases now r d env db r.status refl
        (subst (λ i. find (by_id i) db.deployments ≡ some d) (sym same) e) h2)

checked_of :
    (now : ℕ) (r : Report) (d : Deployment) (env : Env) (db : Db) (status : Status) {q : Db}
    → r.status ≡ some status
    → report_on now r d env db ≡ ok q
    → check_attempt now r.attempt (is_active status && d.cancel_requested) d.lease ≡ ok tt
unfolding report_on report_status
checked_of now r d env db st e h =
    (then-eq-ok (check_attempt now r.attempt (is_active st && d.cancel_requested) d.lease)
      (if terminal d.status
        then (if same_status d.status st then ok db else err already_finished)
        else advance now d st (redact env r.message) (redact env r.logs) db)
      (rw e at h)).0

-- A report of a status that succeeds has passed the check of its attempt.
pub report-checked :
    (o : Outside) (now id : ℕ) (r : Report) (db : Db) (status : Status) (d : Deployment) {q : Db}
    → find (by_id id) db.deployments ≡ some d
    → r.status ≡ some status
    → report o now id r db ≡ ok q
    → check_attempt now r.attempt (is_active status && d.cancel_requested) d.lease ≡ ok tt
unfolding report
report-checked o now id r db st d f e h =
    let (d', f', h1) =
      >>=-eq-ok (or_else (find (by_id id) db.deployments) no_rows)
        (λ d. deployment_env o d >>= λ env. report_on now r d env db) h in
    let (env, _, h2) = >>=-eq-ok (deployment_env o d') (λ env. report_on now r d' env db) h1 in
    let same : d' ≡ d = of_some_eq (sym (or_else-eq-ok _ _ f') ∙ f) in
    subst (λ x. check_attempt now r.attempt (is_active st && x.cancel_requested) x.lease ≡ ok tt)
      same (checked_of now r d' env db st e h2)
