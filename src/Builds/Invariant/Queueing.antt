-- ===== src/Builds/Invariant/Queueing.antt =====
-- Queueing builds keeps the invariant of the builds.
use cloudrail.Builds.{Build, Config, build_pending, valid_sha, validate_config}
use cloudrail.Builds.Invariant.{BuildInv, IsBuild}
use cloudrail.Builds.Queue.{
  BuildDb, Push, Source, build_by_id, enqueue_build, insert_build, new_build, pending_build_of,
  prior_build, push, push_sources, save_source, sort_sources, unless_built, wants, with_delivery,
}
use cloudrail.Common.{
  All-append, Bool-cases, List, Option, [], ap, arith, false, inl, inr, leb, length, ltb, none, not,
  refl, some, subst, suc, sym, ℕ, ◌++◌, ◌<◌, ◌==◌, ◌||◌, ◌∷◌, ◌≡◌,
}
use cloudrail.Common.Table.{count, exists, select}
use cloudrail.Common.Table.Rows.{append-bounded, append_unique, count-none}
use cloudrail.Common.Text.{Text, bytes, equals}
use cloudrail.Deployment.Jobs.{fresh_lease}
use cloudrail.Result.{
  >>=-eq-ok, check_violation, duplicate_key, invalid_build, no_rows, ok, ok-injective, ok-pair,
  or_else, queue_full, refuse, refuse-eq-ok, require, then-eq-ok,
}

below_ten : (n : ℕ) → leb 10 n ≡ false → n < 10
below_ten n h = ground arith

new_build-IsBuild :
    (now fresh service : ℕ) (sha key : Text) (c : Config)
    → IsBuild (new_build now fresh service sha key c)
unfolding new_build fresh_lease
new_build-IsBuild now fresh service sha key c = record {
  attempts = omega arith;
  not_both = refl;
  deployed = λ e. cc;
}

append-BuildInv :
    (now fresh service : ℕ) (sha key : Text) (c : Config) (bs : List Build)
    → leb 10 (count (pending_build_of service) bs) ≡ false
    → exists (build_by_id fresh) bs ≡ false
    → BuildInv bs
    → BuildInv (bs ++ new_build now fresh service sha key c ∷ [])
unfolding new_build
append-BuildInv now fresh service sha key c bs room new v =
    let b = new_build now fresh service sha key c in
    record {
      rows =
          All-append IsBuild bs (b ∷ []) v.rows (new_build-IsBuild now fresh service sha key c, tt);
      unique = λ id.
          append_unique (λ b. b.id) bs b (count-none (build_by_id fresh) bs new) id (v.unique id);
      bounded = λ s.
          append-bounded (λ b. b.service_id) (λ b. build_pending b.status) 10 bs b
            (below_ten _ room) s (v.bounded s);
    }

insert_build-BuildInv :
    (now fresh service : ℕ) (sha key : Text) (c : Config) (db : BuildDb) {b : Build} {q : BuildDb}
    → insert_build now fresh service sha key c db ≡ ok (b, q)
    → BuildInv db.builds
    → BuildInv q.builds
unfolding insert_build
insert_build-BuildInv now fresh service sha key c db {q = q} h v =
    let (room, h1) =
      then-eq-ok (refuse (leb 10 (count (pending_build_of service) db.builds)) queue_full) _ h in
    let (new, h2) = then-eq-ok (refuse (exists (build_by_id fresh) db.builds) duplicate_key) _ h1 in
    let written : q
        ≡ record db { builds = db.builds ++ new_build now fresh service sha key c ∷ [] } =
      sym (ok-pair h2).1 in
    rw written (
      append-BuildInv now fresh service sha key c db.builds (refuse-eq-ok _ _ room)
        (refuse-eq-ok _ _ new) v)

pub enqueue_build-BuildInv :
    (now fresh service : ℕ) (sha key : Text) (c : Config) (db : BuildDb) {b : Build} {q : BuildDb}
    → enqueue_build now fresh service sha key c db ≡ ok (b, q)
    → BuildInv db.builds
    → BuildInv q.builds
unfolding enqueue_build
enqueue_build-BuildInv now fresh service sha key c db {b = b} {q = q} h v =
    let (_, h1) =
      then-eq-ok (refuse (not (valid_sha sha) || ltb 150 (length key)) invalid_build) _ h in
    let (_, h2) =
      then-eq-ok (require (exists (λ s. s.id == service) db.main.services) no_rows) _ h1 in
    let (prior, _, h3) = >>=-eq-ok (prior_build service sha key c db.builds) _ h2 in
    by_prior prior h3
  where
    by_prior :
        (o : Option Build)
        → unless_built o db (insert_build now fresh service sha key c db) ≡ ok (b, q)
        → BuildInv q.builds
    by_prior none h = insert_build-BuildInv now fresh service sha key c db h v
    by_prior (some b) h = subst (λ d. BuildInv d.builds) (ok-pair h).1 v

pub push_sources-BuildInv :
    (p : Push) (n : ℕ) (ss : List Source) (db : BuildDb) {q : BuildDb}
    → push_sources p n ss db ≡ ok q
    → BuildInv db.builds
    → BuildInv q.builds
unfolding push_sources
push_sources-BuildInv p n [] db h v = subst (λ d. BuildInv d.builds) (ok-injective h) v
push_sources-BuildInv p n (s ∷ ss) db h v =
    let (c, _, h1) = >>=-eq-ok (or_else s.config no_rows) _ h in
    let (b, e, h2) =
      >>=-eq-ok
        (enqueue_build p.now (p.draw n) s.service_id p.sha (bytes "webhook:" ++ p.delivery) c db) _
        h1 in
    push_sources-BuildInv p (suc n) ss b.1 h2 (
      enqueue_build-BuildInv p.now (p.draw n) s.service_id p.sha (bytes "webhook:" ++ p.delivery) c
        db e v)

pub push-BuildInv :
    (p : Push) (db : BuildDb) {q : BuildDb}
    → push p db ≡ ok q
    → BuildInv db.builds
    → BuildInv q.builds
unfolding push
push-BuildInv p db h v = elim (Bool-cases (exists (equals p.delivery) db.deliveries)) [
  | inl t ↦ subst (λ d. BuildInv d.builds) (ok-injective (rw t at h)) v
  | inr t ↦
      push_sources-BuildInv p 0 (sort_sources (select (wants p) db.sources))
        (with_delivery p.delivery db) (rw t at h) v
]

pub save_source-builds :
    (service : ℕ) (c : Config) (db : BuildDb) {q : BuildDb}
    → save_source service c db ≡ ok q
    → q.builds ≡ db.builds
unfolding save_source
save_source-builds service c db {q = q} h =
    let (_, h1) = then-eq-ok (validate_config c) _ h in
    let (_, h2) =
      then-eq-ok (require (exists (λ s. s.id == service) db.main.services) check_violation) _ h1 in
    ap (λ d. d.builds) (sym (ok-injective h2))
