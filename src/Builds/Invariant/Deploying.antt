-- ===== src/Builds/Invariant/Deploying.antt =====
-- Flushing the builds that succeeded keeps the invariant of the builds.
use cloudrail.Builds.{Build}
use cloudrail.Builds.Flush.{
  Draws, build_request, flush, flush_builds, flushable, flushed, insert_by_age, sort_by_age,
  undeployed, with_deployment,
}
use cloudrail.Builds.Invariant.{BuildInv, IsBuild}
use cloudrail.Builds.Invariant.Steps.{Keeps, All-by_id, update-BuildInv}
use cloudrail.Builds.Queue.{BuildDb, build_by_id}
use cloudrail.Builds.Running.{is_succeeded}
use cloudrail.Common.{
  All, All-map, Bool, Bool-cases, List, [], and_left, inl, inr, leb, refl, some, suc, take, true,
  zero, ℕ, ◌∷◌, ◌≡◌,
}
use cloudrail.Common.Table.{find, select, update}
use cloudrail.Common.Table.Rows.{All-update-to, only_row}
use cloudrail.Deployment.Enqueue.{enqueue}
use cloudrail.Deployment.Model.{Db, Deployment}
use cloudrail.Deployment.Outside.{Outside}
use cloudrail.Result.{Result, err, ok}

-- every row with the identifier of the build succeeded
abbrev Backed : List Build → Build → Type 0
Backed bs b = All (λ x. build_by_id b.id x ≡ true → is_succeeded x.status ≡ true) bs

mark-Backed :
    (p : Build → Bool) (d : ℕ) (bs : List Build) (b : Build)
    → Backed bs b
    → Backed (update p (with_deployment d) bs) b
mark-Backed p d bs b h =
    All-update-to (λ x. build_by_id b.id x ≡ true → is_succeeded x.status ≡ true)
      (λ x. build_by_id b.id x ≡ true → is_succeeded x.status ≡ true) p (with_deployment d) bs
      (λ x k _. k) (λ x k _. k) h

mark-IsBuild :
    (d : ℕ) (x : Build) → is_succeeded x.status ≡ true → IsBuild x → IsBuild (with_deployment d x)
mark-IsBuild d x s k = record { attempts = k.attempts; not_both = k.not_both; deployed = λ _. s }

mark-BuildInv :
    (d : ℕ) (bs : List Build) (b : Build)
    → Backed bs b
    → BuildInv bs
    → BuildInv (update (undeployed b.id) (with_deployment d) bs)
mark-BuildInv d bs b h v =
    update-BuildInv (undeployed b.id) (with_deployment d) bs (λ x. refl) (λ x. refl)
      (All-map (λ x. build_by_id b.id x ≡ true → is_succeeded x.status ≡ true)
        (Keeps (undeployed b.id) (with_deployment d))
        (λ x k c. ((λ e. e), mark-IsBuild d x (k (and_left _ _ c)))) bs h)
      v

flushed-BuildInv :
    (db : BuildDb) (b : Build) (cs : List Build) (rest : BuildDb → BuildDb × Result (Unit {0}))
    (m : Result (Deployment × Db))
    → Backed db.builds b
    → All (Backed db.builds) cs
    → BuildInv db.builds
    → ((q : BuildDb) → All (Backed q.builds) cs → BuildInv q.builds → BuildInv (rest q).0.builds)
    → BuildInv (flushed db b rest m).0.builds
flushed-BuildInv db b cs rest (err e) k h v next = v
flushed-BuildInv db b cs rest (ok (d, main)) k h v next =
    let bs = update (undeployed b.id) (with_deployment d.id) db.builds in
    next (record db { main = main; builds = bs })
      (All-map (Backed db.builds) (Backed bs) (λ c. mark-Backed (undeployed b.id) d.id db.builds c)
        cs h)
      (mark-BuildInv d.id db.builds b k v)

flush_builds-BuildInv :
    (o : Outside) (w : Draws) (n : ℕ) (cs : List Build) (db : BuildDb)
    → All (Backed db.builds) cs
    → BuildInv db.builds
    → BuildInv (flush_builds o w n cs db).0.builds
unfolding flush_builds
flush_builds-BuildInv o w n [] db h v = v
flush_builds-BuildInv o w n (b ∷ cs) db (k, h) v =
    flushed-BuildInv db b cs (λ q. flush_builds o w (suc n) cs q)
      (enqueue o w.now (build_request w n b) db.main) k h v
      (λ q. flush_builds-BuildInv o w (suc n) cs q)

module _ (P : Build → Type 0) where
  All-insert_by_age : (b : Build) (bs : List Build) → P b → All P bs → All P (insert_by_age b bs)
  unfolding insert_by_age
  All-insert_by_age b [] k h = (k, tt)
  All-insert_by_age b (c ∷ cs) k (a, h) = elim (Bool-cases (leb b.created_at c.created_at)) [
    | inl t ↦ rw t (k, (a, h))
    | inr t ↦ rw t (a, All-insert_by_age b cs k h)
  ]

  All-sort_by_age : (bs : List Build) → All P bs → All P (sort_by_age bs)
  unfolding sort_by_age
  All-sort_by_age [] h = tt
  All-sort_by_age (b ∷ bs) (k, h) = All-insert_by_age b (sort_by_age bs) k (All-sort_by_age bs h)

  All-take : (n : ℕ) (bs : List Build) → All P bs → All P (take n bs)
  All-take zero bs h = tt
  All-take (suc n) [] h = tt
  All-take (suc n) (b ∷ bs) (k, h) = (k, All-take n bs h)

  All-select :
      (q : Build → Bool) (bs : List Build) → All (λ b. q b ≡ true → P b) bs → All P (select q bs)
  unfolding select
  All-select q [] h = tt
  All-select q (b ∷ bs) (k, h) = elim (Bool-cases (q b)) [
    | inl t ↦ rw t (k t, All-select q bs h)
    | inr t ↦ rw t (All-select q bs h)
  ]

-- each build that a flush reads is backed by the table
read-Backed : (bs : List Build) → BuildInv bs → All (λ b. flushable b ≡ true → Backed bs b) bs
read-Backed bs v =
    All-map (λ b. find (build_by_id b.id) bs ≡ some b) (λ b. flushable b ≡ true → Backed bs b)
      (λ b f s.
        All-map (λ x. build_by_id b.id x ≡ true → x ≡ b)
          (λ x. build_by_id b.id x ≡ true → is_succeeded x.status ≡ true)
          (λ x e c. rw (e c) (and_left _ _ s)) bs
          (only_row (build_by_id b.id) bs b (v.unique b.id) f))
      bs (All-by_id bs v)

pub flush-BuildInv :
    (o : Outside) (w : Draws) (db : BuildDb) → BuildInv db.builds → BuildInv (flush o w db).0.builds
unfolding flush
flush-BuildInv o w db v =
    flush_builds-BuildInv o w 0 (take 10 (sort_by_age (select flushable db.builds))) db
      (All-take (Backed db.builds) 10 (sort_by_age (select flushable db.builds)) (
        All-sort_by_age (Backed db.builds) (select flushable db.builds)
          (All-select (Backed db.builds) flushable db.builds (read-Backed db.builds v))))
      v
