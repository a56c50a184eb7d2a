-- ===== src/Builds/Pushes.antt =====
-- Deliveries of a webhook that are sent twice.
use cloudrail.Builds.{Build, Config, valid_sha}
use cloudrail.Builds.Queue.{
  BuildDb, Push, Source, enqueue_build, insert_build, prior_build, push, push_sources, sort_sources,
  unless_built, wants, with_delivery,
}
use cloudrail.Common.{
  Bool-cases, List, Option, [], ap, arith, inl, inr, length, ltb, none, not, refl, some, subst, suc,
  sym, true, ℕ, ◌++◌, ◌==◌, ◌||◌, ◌∙◌, ◌∷◌, ◌≡◌,
}
use cloudrail.Common.Table.{exists, select}
use cloudrail.Common.Text.{Text, bytes, equals, equals_refl}
use cloudrail.Deployment.Enqueue.Repeats.{again}
use cloudrail.Result.{
  >>=-eq-ok, invalid_build, no_rows, ok, ok-injective, ok-pair, or_else, refuse, require,
  then-eq-ok,
}

enqueue_build-deliveries :
    (now fresh service : ℕ) (sha key : Text) (c : Config) (db : BuildDb) {b : Build} {q : BuildDb}
    → enqueue_build now fresh service sha key c db ≡ ok (b, q)
    → q.deliveries ≡ db.deliveries
unfolding enqueue_build insert_build
enqueue_build-deliveries now fresh service sha key c db {b = b} {q = q} h =
    let (_, h1) =
      then-eq-ok (refuse (not (valid_sha sha) || ltb 150 (length key)) invalid_build) _ h in
    let (_, h2) =
      then-eq-ok (require (exists (λ s. s.id == service) db.main.services) no_rows) _ h1 in
    let (prior, _, h3) = >>=-eq-ok (prior_build service sha key c db.builds) _ h2 in
    by_prior prior h3
  where
    by_prior :
        (o : Option Build)
        → unless_built o db (insert_build now fresh service sha key c db) ≡ ok (b, q)
        → q.deliveries ≡ db.deliveries
    by_prior none h = ground arith
    by_prior (some b) h = ap (λ d. d.deliveries) (sym (ok-pair h).1)

push_sources-deliveries :
    (p : Push) (n : ℕ) (ss : List Source) (db : BuildDb) {q : BuildDb}
    → push_sources p n ss db ≡ ok q
    → q.deliveries ≡ db.deliveries
unfolding push_sources
push_sources-deliveries p n [] db h = ap (λ d. d.deliveries) (sym (ok-injective h))
push_sources-deliveries p n (s ∷ ss) db h =
    let (c, _, h1) = >>=-eq-ok (or_else s.config no_rows) _ h in
    let (b, e, h2) =
      >>=-eq-ok
        (enqueue_build p.now (p.draw n) s.service_id p.sha (bytes "webhook:" ++ p.delivery) c db) _
        h1 in
    push_sources-deliveries p (suc n) ss b.1 h2
    ∙ enqueue_build-deliveries p.now (p.draw n) s.service_id p.sha (bytes "webhook:" ++ p.delivery)
        c db e

exists-append : (t : Text) (ts : List Text) → exists (equals t) (ts ++ t ∷ []) ≡ true
unfolding exists
exists-append t [] = rw (equals_refl t) refl
exists-append t (s ∷ ts) = ground (arith, exists-append t ts)

delivered :
    (p : Push) (db : BuildDb) {q : BuildDb}
    → push p db ≡ ok q
    → exists (equals p.delivery) q.deliveries ≡ true
unfolding push
delivered p db {q = q} h = elim (Bool-cases (exists (equals p.delivery) db.deliveries)) [
  | inl t ↦ subst (λ d. exists (equals p.delivery) d.deliveries ≡ true) (ok-injective (rw t at h)) t
  | inr t ↦
      rw
        (push_sources-deliveries p 0 (sort_sources (select (wants p) db.sources))
          (with_delivery p.delivery db) (rw t at h))
        (exists-append p.delivery db.deliveries)
]

-- A delivery that was handled and is sent again, at any later time and even with other content,
-- changes nothing.
pub push-again :
    (p again : Push) (db q : BuildDb)
    → push p db ≡ ok q
    → again.delivery ≡ p.delivery
    → push again q ≡ ok q
unfolding push
push-again p again db q h e = rw e (rw (delivered p db h) refl)
