-- ===== src/Deployment/Histories/Finality.antt =====
-- store.go: a deployment that is finished. The table of deployments is written by enqueueTx, Claim,
-- Report and Cancel alone.
pub mod Reporting
pub mod Claiming
pub mod Laws
mod Tests
use cloudrail.Common.{
  Bool, ltb, and_right, ==_iff, ==_refl, All, Bool-cases, List, Option, Option-cases, [], ap, arith,
  false, if◌then◌else◌, inl, inr, none, of_some_eq, refl, some, subst, sym, true, ℕ, ◌++◌, ◌==◌,
  ◌∙◌, ◌∷◌, ◌≡◌, ◌⊎◌,
}
use cloudrail.Common.Table.{count, find, find-append, find-update, find_sound, update, updated}
use cloudrail.Deployment.Claim.{
  found, claim_cron, claim_due, Turn, Work, claim, claim_action, claim_cron_from, claim_deployment,
  claim_from, claim_run, expirable, expire, expired, schedule_run, start_deployment,
}
use cloudrail.Deployment.Enqueue.{Request, enqueue, write_deployment}
use cloudrail.Deployment.Enqueue.Laws.{enqueue_cases}
use cloudrail.Deployment.Model.{
  Action, CronRun, Service, Db, Deployment, Report, Status, is_active, superseded, terminal,
}
use cloudrail.Deployment.Outside.{Outside}
use cloudrail.Deployment.Report.{
  activate, active_with, advance, by_id, cancel, cancellable, cancelled, report, reported, settle,
  supersede, to_superseded, with_logs,
}
use cloudrail.Deployment.Report.Laws.{IsAdvanced, report_cases}
use cloudrail.Common.Text.{Text}
use cloudrail.Result.{
  ok, ok-injective, conflict, require, then-eq-ok, Result, err, ok-pair, >>=-eq-ok, no_rows,
  or_else,
}

-- One operation, seen from the table of deployments; those that leave it alone may write any other.
pub data Write (o : Outside) : Db → Db → Type 0 where
  by_enqueue :
      (now : ℕ) (r : Request) (db q : Db) (d : Deployment)
      → enqueue o now r db ≡ ok (d, q)
      → Write o db q
  by_claim : (t : Turn) (db q : Db) (w : Option Work) → claim o t db ≡ ok (w, q) → Write o db q
  by_report : (now id : ℕ) (r : Report) (db q : Db) → report o now id r db ≡ ok q → Write o db q
  by_cancel : (now id : ℕ) (db q : Db) → cancel now id db ≡ ok q → Write o db q
  by_other : (db q : Db) → q.deployments ≡ db.deployments → Write o db q

-- any number of them, one after another
pub data Writes (o : Outside) (db : Db) : Db → Type 0 where
  at_start : Writes o db db
  and_then : {p q : Db} → Writes o db p → Write o p q → Writes o db q

-- A finished deployment keeps its service and its error, and its status too, unless it was active and
-- is superseded.
abbrev pub Stays : Deployment → Deployment → Type 0
Stays d e =
    (e.service_id ≡ d.service_id)
    × (e.error ≡ d.error)
    × ((e.status ≡ d.status) ⊎ ((is_active d.status ≡ true) × (e.status ≡ superseded)))

unfoldable pub Keeps : List Deployment → List Deployment → Type 0
Keeps ds es =
    (id : ℕ) (d : Deployment)
    → find (by_id id) ds ≡ some d
    → terminal d.status ≡ true
    → (e : Deployment) × (find (by_id id) es ≡ some e) × Stays d e

pub Keeps-refl : (ds : List Deployment) → Keeps ds ds
unfolding Keeps
Keeps-refl ds id d f t = (d, f, (refl, refl, inl refl))

-- A finished deployment is finished after it.
Stays-terminal :
    (d e : Deployment) → Stays d e → terminal d.status ≡ true → terminal e.status ≡ true
unfolding terminal
Stays-terminal d e (_, _, inl s) t = ap terminal s ∙ t
Stays-terminal d e (_, _, inr (_, s)) t = ap terminal s

Stays-trans : (d e f : Deployment) → Stays d e → Stays e f → Stays d f
Stays-trans d e f (s, m, inl k) (s', m', inl l) = (s' ∙ s, m' ∙ m, inl (l ∙ k))
Stays-trans d e f (s, m, inl k) (s', m', inr (a, l)) =
    (s' ∙ s, m' ∙ m, inr (ap is_active (sym k) ∙ a, l))
Stays-trans d e f (s, m, inr (a, k)) (s', m', inl l) = (s' ∙ s, m' ∙ m, inr (a, l ∙ k))
Stays-trans d e f (s, m, inr (a, k)) (s', m', inr (b, l)) = absurd (cc (ap is_active k, b))

pub Keeps-trans : (ds es fs : List Deployment) → Keeps ds es → Keeps es fs → Keeps ds fs
unfolding Keeps
Keeps-trans ds es fs h k id d f t =
    let (e, g, s) = h id d f t in
    let (x, g', s') = k id e g (Stays-terminal d e s t) in (x, g', Stays-trans d e x s s')

-- An update under which each finished row that a query by identifier finds stays.
pub update-Keeps :
    (p : Deployment → Bool) (f : Deployment → Deployment) (ds : List Deployment)
    → ((d : Deployment) → (f d).id ≡ d.id)
    → ((id : ℕ) (d : Deployment)
        → find (by_id id) ds ≡ some d
        → p d ≡ true
        → terminal d.status ≡ true
        → Stays d (f d))
    → Keeps ds (update p f ds)
unfolding Keeps
update-Keeps p f ds same k id d g t =
    let found =
      find-update (by_id id) p f ds (λ x. ap (λ i. i == id) (same x)) ∙ ap (updated p f) g in
    elim (Bool-cases (p d)) [
      | inl a ↦ (f d, found ∙ rw a refl, k id d g a t)
      | inr a ↦ (d, found ∙ rw a refl, (refl, refl, inl refl))
    ]

pub append-Keeps : (ds : List Deployment) (d : Deployment) → Keeps ds (ds ++ d ∷ [])
unfolding Keeps
append-Keeps ds d id x g t = (x, find-append (by_id id) ds d ∙ rw g refl, (refl, refl, inl refl))
