-- ===== src/Builds/Histories.antt =====
-- Whole histories of the builds: the calls of the store's operations, one after another.
use cloudrail.Builds.{Build, Config}
use cloudrail.Builds.Flush.{Draws, flush}
use cloudrail.Builds.Invariant.{BuildInv, IsBuild}
use cloudrail.Builds.Invariant.Deploying.{flush-BuildInv}
use cloudrail.Builds.Invariant.Queueing.{enqueue_build-BuildInv, push-BuildInv, save_source-builds}
use cloudrail.Builds.Invariant.Steps.{
  cancel_build-BuildInv, claim_build-BuildInv, report_build-BuildInv,
}
use cloudrail.Builds.Queue.{BuildDb, Push, enqueue_build, push, save_source}
use cloudrail.Builds.Running.{BuildReport, cancel_build, claim_build, report_build}
use cloudrail.Common.{All, List, [], ap, arith, refl, subst, sym, ℕ, ◌∷◌, ◌≡◌}
use cloudrail.Common.Table.{count}
use cloudrail.Common.Text.{Text}
use cloudrail.Deployment.Outside.{Outside}
use cloudrail.Result.{Result, err, ok, ok-injective}

-- A call of the store.
pub data BuildCall : Type 0 where
  saves : ℕ → Config → BuildCall
  pushes : Push → BuildCall
  enqueues : ℕ → ℕ → ℕ → Text → Text → Config → BuildCall
  claims : ℕ → ℕ → BuildCall
  reports : ℕ → ℕ → BuildReport → BuildCall
  cancels : ℕ → BuildCall
  flushes : Draws → BuildCall

-- a transaction that fails is rolled back
abbrev pub build_after : BuildDb → Result BuildDb → BuildDb
build_after db (ok q) = q
build_after db (err e) = db

abbrev pub build_second : Result (Build × BuildDb) → Result BuildDb
build_second (ok (b, db)) = ok db
build_second (err e) = err e

unfoldable pub build_step : Outside → BuildDb → BuildCall → BuildDb
build_step o db (BuildCall.saves service c) = build_after db (save_source service c db)
build_step o db (BuildCall.pushes p) = build_after db (push p db)
build_step o db (BuildCall.enqueues now fresh service sha key c) =
    build_after db (build_second (enqueue_build now fresh service sha key c db))
build_step o db (BuildCall.claims now token) = (claim_build now token db).1
build_step o db (BuildCall.reports now id r) = build_after db (report_build now id r db)
build_step o db (BuildCall.cancels id) = build_after db (cancel_build id db)
build_step o db (BuildCall.flushes w) = (flush o w db).0

unfoldable pub build_run : Outside → BuildDb → List BuildCall → BuildDb
build_run o db [] = db
build_run o db (c ∷ cs) = build_run o (build_step o db c) cs

after-BuildInv :
    (db : BuildDb) (m : Result BuildDb)
    → BuildInv db.builds
    → ((q : BuildDb) → m ≡ ok q → BuildInv q.builds)
    → BuildInv (build_after db m).builds
after-BuildInv db (ok q) v k = k q refl
after-BuildInv db (err e) v k = v

build_second_lem :
    (m : Result (Build × BuildDb)) {q : BuildDb}
    → build_second m ≡ ok q
    → (b : Build) × (m ≡ ok (b, q))
build_second_lem (ok (b, db)) h = (b, ap (λ d. ok (b, d)) (ok-injective h))
build_second_lem (err e) h = absurd (cc)

build_step-BuildInv :
    (o : Outside) (db : BuildDb) (c : BuildCall)
    → BuildInv db.builds
    → BuildInv (build_step o db c).builds
unfolding build_step
build_step-BuildInv o db (BuildCall.saves service c) v =
    after-BuildInv db (save_source service c db) v
      (λ q e. subst BuildInv (sym (save_source-builds service c db e)) v)
build_step-BuildInv o db (BuildCall.pushes p) v =
    after-BuildInv db (push p db) v (λ q e. push-BuildInv p db e v)
build_step-BuildInv o db (BuildCall.enqueues now fresh service sha key c) v =
    after-BuildInv db (build_second (enqueue_build now fresh service sha key c db)) v (λ q e.
      enqueue_build-BuildInv now fresh service sha key c db
        (build_second_lem (enqueue_build now fresh service sha key c db) e).1 v)
build_step-BuildInv o db (BuildCall.claims now token) v = claim_build-BuildInv now token db v
build_step-BuildInv o db (BuildCall.reports now id r) v =
    after-BuildInv db (report_build now id r db) v (λ q e. report_build-BuildInv now id r db e v)
build_step-BuildInv o db (BuildCall.cancels id) v =
    after-BuildInv db (cancel_build id db) v (λ q e. cancel_build-BuildInv id db e v)
build_step-BuildInv o db (BuildCall.flushes w) v = flush-BuildInv o w db v

build_run_from :
    (o : Outside) (db : BuildDb) (cs : List BuildCall)
    → BuildInv db.builds
    → BuildInv (build_run o db cs).builds
unfolding build_run
build_run_from o db [] v = v
build_run_from o db (c ∷ cs) v =
    build_run_from o (build_step o db c) cs (build_step-BuildInv o db c v)

no_builds : (bs : List Build) → bs ≡ [] → BuildInv bs
unfolding count
no_builds bs e = record {
  rows = subst (All IsBuild) (sym e) tt;
  unique = λ id. rw e (omega arith);
  bounded = λ s. rw e (omega arith);
}

-- From a store with no builds, after any sequence of calls, failing ones and flushes that stop
-- halfway included: no two builds share an identifier, no service has more than ten unfinished
-- builds, none has made more than three attempts, no build whose cancellation was requested is
-- recorded as succeeded, and only builds that succeeded have a deployment.
pub build_run-BuildInv :
    (o : Outside) (db : BuildDb) (cs : List BuildCall)
    → db.builds ≡ []
    → BuildInv (build_run o db cs).builds
build_run-BuildInv o db cs e = build_run_from o db cs (no_builds db.builds e)
