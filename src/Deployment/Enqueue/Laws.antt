-- ===== src/Deployment/Enqueue/Laws.antt =====
-- What a successful request has passed, and what it has written.
use cloudrail.Common.{
  ℕ, ◌<◌, ◌≡◌, sym, ◌∙◌, ap, false, Option, none, some, ◌==◌, arith, ◌⊎◌, inl, inr, ltb, leb,
}
use cloudrail.Common.Int.{Between, Between-of_tests}
use cloudrail.Common.Text.{Text}
use cloudrail.Common.Table.{find, count}
use cloudrail.Result.{
  ok, ◌>>◌, >>=-eq-ok, then-eq-ok, refuse-eq-ok, or_else-eq-ok, ok-pair, or_else, no_rows,
}
use cloudrail.Deployment.Model.{Db, Service, Deployment, Settings}
use cloudrail.Deployment.Outside.{Outside}
use cloudrail.Deployment.Enqueue.{
  Request, pending_of, busy_action_of, service_settings, deployment_settings, find_prior,
  check_queue, new_deployment, write_deployment, seal_variables, insert_deployment, unless_prior,
  enqueue, check_request, enqueue_new, enqueue_checked, enqueue_for,
}

-- The request was inserted.
pub record IsInserted (o : Outside) (now : ℕ) (r : Request) (db : Db) (d : Deployment) (db' : Db)
    : Type 0 where
  pub service : Service
  pub built : Settings
  pub sealed : Text
  pub service_found : find (λ s. s.id == r.service_id) db.services ≡ some service
  pub built_ok : deployment_settings (service_settings service r.spec) r.start_command ≡ ok built
  pub no_prior : find_prior (o.request_hash r.spec r.start_command) r db ≡ ok none
  pub port_range : Between 1 65535 r.spec.port
  pub no_action : count (busy_action_of r.service_id) db.actions ≡ 0
  pub room : count (pending_of r.service_id) db.deployments < 10
  pub fresh : count (λ e. e.id == r.fresh) db.deployments ≡ 0
  pub row : d ≡ new_deployment now (o.request_hash r.spec r.start_command) sealed r built
  pub written : db' ≡ write_deployment db r.service_id (service_settings service r.spec) d

-- The request repeats an earlier one.
pub record IsRepeated (o : Outside) (r : Request) (db : Db) (d : Deployment) (db' : Db)
    : Type 0 where
  pub found : find_prior (o.request_hash r.spec r.start_command) r db ≡ ok (some d)
  pub unchanged : db' ≡ db

not_positive : (n : ℕ) → ltb 0 n ≡ false → n ≡ 0
not_positive n h = ground arith

below_ten : (n : ℕ) → leb 10 n ≡ false → n < 10
below_ten n h = ground arith

module _ (o : Outside) (now : ℕ) (r : Request) (db : Db) where
  pub insert_cases :
      (s : Service) (built : Settings) {d : Deployment} {db' : Db}
      → find (λ s. s.id == r.service_id) db.services ≡ some s
      → deployment_settings (service_settings s r.spec) r.start_command ≡ ok built
      → find_prior (o.request_hash r.spec r.start_command) r db ≡ ok none
      → enqueue_new o now r s built db ≡ ok (d, db')
      → IsInserted o now r db d db'
  unfolding enqueue_new check_queue insert_deployment
  insert_cases s built sf bo np h =
      let (queue, ins) = then-eq-ok _ _ h in
      let (no_action, room) = then-eq-ok _ _ queue in
      let (port, h1) = then-eq-ok _ _ ins in
      let (fresh, h2) = then-eq-ok _ _ h1 in
      let (sealed, _, e) = >>=-eq-ok (seal_variables o r) _ h2 in
      let (row, written) = ok-pair e in
      record {
        service = s;
        built = built;
        sealed = sealed;
        service_found = sf;
        built_ok = bo;
        no_prior = np;
        port_range = Between-of_tests 1 65535 r.spec.port (refuse-eq-ok _ _ port);
        no_action = not_positive _ (refuse-eq-ok _ _ no_action);
        room = below_ten _ (refuse-eq-ok _ _ room);
        fresh = not_positive _ (refuse-eq-ok _ _ fresh);
        row = sym row;
        written =
            sym written ∙ ap (write_deployment db r.service_id (service_settings s r.spec)) row;
      }

  by_prior :
      (s : Service) (built : Settings) {d : Deployment} {db' : Db}
      → find (λ s. s.id == r.service_id) db.services ≡ some s
      → deployment_settings (service_settings s r.spec) r.start_command ≡ ok built
      → (prior : Option Deployment)
      → find_prior (o.request_hash r.spec r.start_command) r db ≡ ok prior
      → unless_prior prior db (enqueue_new o now r s built db) ≡ ok (d, db')
      → IsInserted o now r db d db' ⊎ IsRepeated o r db d db'
  by_prior s built sf bo none p h = inl (insert_cases s built sf bo p h)
  by_prior s built sf bo (some e) p h =
      let (same, kept) = ok-pair h in
      inr (record { found = p ∙ ap (λ x. ok (some x)) same; unchanged = sym kept })

  -- A request that succeeds was inserted, or repeats an earlier one and changes nothing.
  pub enqueue_cases :
      {d : Deployment} {db' : Db}
      → enqueue o now r db ≡ ok (d, db')
      → IsInserted o now r db d db' ⊎ IsRepeated o r db d db'
  unfolding enqueue enqueue_for enqueue_checked
  enqueue_cases h =
      let (s, sf, h1) =
        >>=-eq-ok (or_else (find (λ s. s.id == r.service_id) db.services) no_rows)
          (λ s. enqueue_for o now r s db) h in
      let (built, bo, h2) =
        >>=-eq-ok (deployment_settings (service_settings s r.spec) r.start_command)
          (λ built. check_request s r >> enqueue_checked o now r s built db) h1 in
      let (_, h3) = then-eq-ok (check_request s r) (enqueue_checked o now r s built db) h2 in
      let (prior, p, h4) =
        >>=-eq-ok (find_prior (o.request_hash r.spec r.start_command) r db)
          (λ prior. unless_prior prior db (enqueue_new o now r s built db)) h3 in
      by_prior s built (or_else-eq-ok _ _ sf) bo prior p h4
