-- ===== src/Builds/Invariant/Steps.antt =====
-- The operations on builds keep the invariant, and so do whole histories of them.
use cloudrail.Builds.{Build, build_pending}
use cloudrail.Builds.Invariant.{BuildInv, IsBuild}
use cloudrail.Builds.Invariant.Rows.{
  accepts_status, attempts_left, build_cancelled-id, build_cancelled-service_id, cancel-IsBuild,
  end-IsBuild, none_expirable, report-IsBuild, reported_pending, start-IsBuild,
  unless_cancelled_lem,
}
use cloudrail.Builds.Queue.{BuildDb, build_by_id, pending_build_of}
use cloudrail.Builds.Running.{
  BuildReport, accepts, build_before, build_cancelled, build_reported, cancel_build,
  cancellable_build, claim_build, claim_due_build, due_build, expirable_build, expire_builds,
  expired_build, report_build, start_build,
}
use cloudrail.Common.{
  ==_refl, All, All-map, Bool, List, Option, [], and_left, and_right, arith, false, none, refl,
  some, subst, sym, true, ℕ, ◌∷◌, ◌≡◌, ◌≤◌,
}
use cloudrail.Common.Table.{count-update, find, first_by, update}
use cloudrail.Common.Table.Rows.{
  All-first_by, All-of, All-update-to, All-zip, count-update-le, found_row, only_row,
}
use cloudrail.Result.{ok}
use native.Mathlib.Nat.{le_trans}

-- What an update makes of one row: it keeps what holds of it, and makes no finished build pending.
abbrev pub Keeps : (Build → Bool) → (Build → Build) → Build → Type 0
Keeps p f b =
    p b ≡ true
    → (build_pending (f b).status ≡ true → build_pending b.status ≡ true)
      × (IsBuild b → IsBuild (f b))

pending_of_pair :
    (service : ℕ) (b c : Build)
    → c.service_id ≡ b.service_id
    → (build_pending c.status ≡ true → build_pending b.status ≡ true)
    → pending_build_of service c ≡ true
    → pending_build_of service b ≡ true
pending_of_pair service b c e k h = ground arith

pub update-BuildInv :
    (p : Build → Bool) (f : Build → Build) (bs : List Build)
    → ((b : Build) → (f b).id ≡ b.id)
    → ((b : Build) → (f b).service_id ≡ b.service_id)
    → All (Keeps p f) bs
    → BuildInv bs
    → BuildInv (update p f bs)
update-BuildInv p f bs same owned kept v = record {
  rows =
      All-update-to (λ b. Keeps p f b × IsBuild b) IsBuild p f bs (λ b k h. (k.0 h).1 k.1)
        (λ b k h. k.1) (All-zip (Keeps p f) IsBuild bs kept v.rows);
  unique =
      λ id. le_trans (count-update (build_by_id id) p f bs (λ b h. rw (same b) at h)) (v.unique id);
  bounded = λ service.
      le_trans
        (count-update-le (pending_build_of service) p f bs (
          All-map (Keeps p f)
            (λ b.
              p b ≡ true
              → pending_build_of service (f b) ≡ true
              → pending_build_of service b ≡ true)
            (λ b k c h. pending_of_pair service b (f b) (owned b) (k c).0 h) bs kept))
        (v.bounded service);
}

expire_builds-BuildInv :
    (now : ℕ) (bs : List Build)
    → BuildInv bs
    → BuildInv (update (expirable_build now) expired_build bs)
expire_builds-BuildInv now bs v =
    update-BuildInv (expirable_build now) expired_build bs (λ b. refl) (λ b. refl)
      (All-of (Keeps (expirable_build now) expired_build)
        (λ b c. (
          (λ h. absurd (cc (h, (unless_cancelled_lem b).1))),
          (λ k.
              end-IsBuild b (expired_build b) k (and_left _ _ c) refl refl
                (unless_cancelled_lem b).0),
        ))
        bs)
      v

-- what holds of every row, and of the row that a query orders first
Found : ℕ → List Build → Build → Type 0
Found now bs b = (find (build_by_id b.id) bs ≡ some b) × (expirable_build now b ≡ false)

-- each row is the one that its identifier finds
pub All-by_id : (bs : List Build) → BuildInv bs → All (λ b. find (build_by_id b.id) bs ≡ some b) bs
All-by_id bs v = each bs (λ b. found_row (build_by_id b.id) bs (v.unique b.id))
  where
    each :
        (cs : List Build)
        → ((b : Build)
            → All (λ c. build_by_id b.id c ≡ true → find (build_by_id b.id) bs ≡ some c) cs)
        → All (λ b. find (build_by_id b.id) bs ≡ some b) cs
    each [] k = tt
    each (c ∷ cs) k = ((k c).0 (==_refl c.id), each cs (λ b. (k b).1))

All-Found :
    (now : ℕ) (bs : List Build)
    → BuildInv bs
    → All (λ b. expirable_build now b ≡ false) bs
    → All (Found now bs) bs
unfolding Found
All-Found now bs v e =
    All-zip (λ b. find (build_by_id b.id) bs ≡ some b) (λ b. expirable_build now b ≡ false) bs
      (All-by_id bs v) e

start_build-BuildInv :
    (now token : ℕ) (bs : List Build) (b : Build)
    → BuildInv bs
    → Found now bs b
    → due_build now b ≡ true
    → BuildInv (update (build_by_id b.id) (start_build now token) bs)
unfolding Found
start_build-BuildInv now token bs b v (f, e) d =
    update-BuildInv (build_by_id b.id) (start_build now token) bs (λ x. refl) (λ x. refl)
      (All-map (λ x. build_by_id b.id x ≡ true → x ≡ b)
        (Keeps (build_by_id b.id) (start_build now token))
        (λ x same c.
          let h : build_pending x.status ≡ true =
            rw (same c) (and_left (build_pending b.status) _ d) in
          let a : x.lease.attempt ≤ 2 = rw (same c) (attempts_left now b e d) in
          ((λ _. h), (λ k. start-IsBuild now token x k h a)))
        bs (only_row (build_by_id b.id) bs b (v.unique b.id) f))
      v

claim_due_build-BuildInv :
    (now token : ℕ) (db : BuildDb) (o : Option Build)
    → BuildInv db.builds
    → All (λ b. expirable_build now b ≡ false) db.builds
    → first_by build_before (due_build now) db.builds ≡ o
    → BuildInv (claim_due_build now token db o).1.builds
unfolding claim_due_build
claim_due_build-BuildInv now token db none v e s = v
claim_due_build-BuildInv now token db (some b) v e s =
    let (f, d) =
      All-first_by (Found now db.builds) build_before (due_build now) db.builds
        (All-Found now db.builds v e) s in
    start_build-BuildInv now token db.builds b v f d

pub claim_build-BuildInv :
    (now token : ℕ) (db : BuildDb)
    → BuildInv db.builds
    → BuildInv (claim_build now token db).1.builds
unfolding claim_build expire_builds
claim_build-BuildInv now token db v =
    claim_due_build-BuildInv now token (expire_builds now db) _
      (expire_builds-BuildInv now db.builds v) (none_expirable now db.builds) refl

pub report_build-BuildInv :
    (now id : ℕ) (r : BuildReport) (db : BuildDb) {q : BuildDb}
    → report_build now id r db ≡ ok q
    → BuildInv db.builds
    → BuildInv q.builds
unfolding report_build
report_build-BuildInv now id r db {q = q} h v =
    let written : q.builds ≡ update (accepts now id r) (build_reported r) db.builds =
      ground arith in
    subst BuildInv (sym written) (
      update-BuildInv (accepts now id r) (build_reported r) db.builds (λ b. refl) (λ b. refl)
        (All-of (Keeps (accepts now id r) (build_reported r))
          (λ b c. (
            (λ e.
                reported_pending b.cancel_requested b.status r.status (accepts_status now id r b c)
                  e),
            (λ k. report-IsBuild now id r b k c),
          ))
          db.builds)
        v)

pub cancel_build-BuildInv :
    (id : ℕ) (db : BuildDb) {q : BuildDb}
    → cancel_build id db ≡ ok q
    → BuildInv db.builds
    → BuildInv q.builds
unfolding cancel_build
cancel_build-BuildInv id db {q = q} h v =
    let written : q.builds ≡ update (cancellable_build id) build_cancelled db.builds =
      ground arith in
    subst BuildInv (sym written) (
      update-BuildInv (cancellable_build id) build_cancelled db.builds (λ b. build_cancelled-id b)
        (λ b. build_cancelled-service_id b)
        (All-of (Keeps (cancellable_build id) build_cancelled)
          (λ b c. ((λ e. and_right _ _ c), (λ k. cancel-IsBuild b k (and_right _ _ c)))) db.builds)
        v)
