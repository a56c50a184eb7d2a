-- ===== src/Builds/Flush.antt =====
-- builds/store.go: deploying the builds that succeeded.
use cloudrail.Builds.{Build}
use cloudrail.Builds.Queue.{BuildDb}
use cloudrail.Builds.Running.{is_succeeded}
use cloudrail.Common.{
  Bool, List, [], ap, ◌∙◌, if◌then◌else◌, is_some, leb, not, refl, some, suc, take, ℕ, ◌&&◌, ◌++◌,
  ◌==◌, ◌∷◌, ◌≡◌,
}
use cloudrail.Common.Table.{select, update}
use cloudrail.Common.Text.{Text, bytes}
use cloudrail.Deployment.Enqueue.{Request, enqueue}
use cloudrail.Deployment.Enqueue.Repeats.{again, enqueue-again}
use cloudrail.Deployment.Model.{Db, Deployment}
use cloudrail.Deployment.Outside.{Env, Outside, id_text}
use cloudrail.Result.{Result, err, ok}

-- what the deployments of a flush draw: the n-th identifier and nonce, and what Store.variables
-- returns for a service
pub record Draws : Type 0 where
  pub now : ℕ
  pub fresh : ℕ → ℕ
  pub nonce : ℕ → Text
  pub variables : ℕ → Result Env

-- the call of EnqueueBuilt
unfoldable pub build_request : Draws → ℕ → Build → Request
build_request w n b = record {
  service_id = b.service_id;
  spec = record { image = b.image; port = b.config.port; health_path = b.config.health_path };
  start_command = some b.config.start_command;
  key = bytes "build:" ++ id_text b.id;
  fresh = w.fresh n;
  nonce = w.nonce n;
  variables = w.variables b.service_id;
}

abbrev pub undeployed : ℕ → Build → Bool
undeployed id b = b.id == id && not (is_some b.deployment_id)

abbrev pub with_deployment : ℕ → Build → Build
with_deployment d b = record b { deployment_id = some d }

-- the mark on the build once its deployment is queued, and the rest of the loop; or its end
abbrev pub flushed :
    BuildDb
    → Build
    → (BuildDb → BuildDb × Result (Unit {0}))
    → Result (Deployment × Db)
    → BuildDb × Result (Unit {0})
flushed db b rest (ok p) =
    rest (record db {
      main = p.1;
      builds = update (undeployed b.id) (with_deployment p.0.id) db.builds;
    })
flushed db b rest (err e) = (db, err e)

-- The loop of Flush. The deployment and the mark on the build are two transactions, and an error
-- leaves what the earlier ones wrote; so the result is the store, and the error that ended the loop.
unfoldable pub flush_builds :
    Outside → Draws → ℕ → List Build → BuildDb → BuildDb × Result (Unit {0})
flush_builds o w n [] db = (db, ok tt)
flush_builds o w n (b ∷ bs) db =
    flushed db b (λ q. flush_builds o w (suc n) bs q)
      (enqueue o w.now (build_request w n b) db.main)

-- status='succeeded' AND deployment_id=''
abbrev pub flushable : Build → Bool
flushable b = is_succeeded b.status && not (is_some b.deployment_id)

-- ORDER BY created_at; builds of one instant stay in the table's order
unfoldable pub insert_by_age : Build → List Build → List Build
insert_by_age b [] = b ∷ []
insert_by_age b (c ∷ cs) =
    let rest = insert_by_age b cs in if leb b.created_at c.created_at then b ∷ c ∷ cs else c ∷ rest

unfoldable pub sort_by_age : List Build → List Build
unfolding insert_by_age
sort_by_age [] = []
sort_by_age (b ∷ bs) = insert_by_age b (sort_by_age bs)

-- Store.Flush
unfoldable pub flush : Outside → Draws → BuildDb → BuildDb × Result (Unit {0})
unfolding flush_builds sort_by_age
flush o w db = flush_builds o w 0 (take 10 (sort_by_age (select flushable db.builds))) db

-- the store once the deployment of a build is queued and the build is marked
abbrev pub marked : BuildDb → Build → ℕ → Db → BuildDb
marked db b d main = record db {
  main = main;
  builds = update (undeployed b.id) (with_deployment d) db.builds;
}

-- Flush takes the ten oldest builds that succeeded and have no deployment; let `b` be the first. Where
-- the program stops after the transaction that queues the deployment of `b` and before the one that
-- marks `b`, the next Flush queues no second deployment of `b`, marks it with the first, and goes on
-- with the remaining builds from the very store from which the first Flush would have gone on.
pub flush-recovers :
    (o : Outside) (w later : Draws) (b : Build) (bs : List Build) (db : BuildDb) (d : Deployment)
    (main : Db)
    → take 10 (sort_by_age (select flushable db.builds)) ≡ b ∷ bs
    → enqueue o w.now (build_request w 0 b) db.main ≡ ok (d, main)
    → (flush o w db ≡ flush_builds o w 1 bs (marked db b d.id main))
      × (flush o later (record db { main = main })
          ≡ flush_builds o later 1 bs (marked db b d.id main))
unfolding flush flush_builds build_request again
flush-recovers o w later b bs db d main queue h =
    let e =
      enqueue-again o w.now (build_request w 0 b) db.main d main refl h later.now (later.fresh 0)
        (later.nonce 0) (later.variables b.service_id) in
    (
      ap (λ x. flush_builds o w 0 x db) queue ∙ ap (flushed db b (λ q. flush_builds o w 1 bs q)) h,
      ap (λ x. flush_builds o later 0 x (record db { main = main })) queue
          ∙ ap (flushed (record db { main = main }) b (λ q. flush_builds o later 1 bs q)) e,
    )
