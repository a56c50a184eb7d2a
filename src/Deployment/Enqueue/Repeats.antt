-- ===== src/Deployment/Enqueue/Repeats.antt =====
-- Repeating a request under its idempotency key.
use cloudrail.Common.{
  ==_refl, Bool, List, Option, Option-cases, [], ap, false, if◌then◌else◌, inl, inr, none,
  of_some_eq, refl, some, subst, sym, take, true, ℕ, ◌++◌, ◌==◌, ◌∙◌, ◌∷◌, ◌≡◌, ◌≢◌,
}
use cloudrail.Common.Table.{find, find-append, find_sound, find-update, update, updated}
use cloudrail.Common.Text.{Text, bytes, equals, equals_refl, is_empty}
use cloudrail.Deployment.Enqueue.{
  Request, check_request, check_template, deployment_settings, enqueue, enqueue_checked,
  enqueue_for, enqueue_new, find_prior, keyed, new_deployment, service_settings, unless_prior,
  with_settings, write_deployment,
}
use cloudrail.Deployment.Enqueue.Laws.{insert_cases}
use cloudrail.Deployment.Model.{Db, Deployment, Service, Settings, Spec}
use cloudrail.Deployment.Outside.{Env, Outside, id_text}
use cloudrail.Deployment.Settings.{normalize, private_hostname, slug}
use cloudrail.Result.{
  >>=-eq-ok, Result, conflict, err, no_rows, ok, ok-pair, or_else, or_else-eq-ok, then-eq-ok, ◌>>◌,
}

joined_empty : (s t u : Text) (c : ℕ) → is_empty (s ++ (c ∷ t) ++ u) ≡ false
joined_empty [] t u c = refl
joined_empty (d ∷ s) t u c = refl

kept_host : (h n i : Text) → is_empty (if is_empty h then private_hostname n i else h) ≡ false
unfolding private_hostname
kept_host [] n i = joined_empty (slug n) (take 6 i) (bytes ".internal") b'-'
kept_host (c ∷ h) n i = refl

-- saving the settings that a request saved changes nothing
settings_again :
    (s : Service) (spec : Spec)
    → service_settings (with_settings (service_settings s spec) s) spec ≡ service_settings s spec
unfolding service_settings normalize
settings_again s spec = rw (kept_host s.settings.private_host s.name (id_text s.id)) refl

-- the request that a client sends again, with what the store draws anew
unfoldable pub again : Request → ℕ → Text → Result Env → Request
again r fresh nonce variables = record r { fresh = fresh; nonce = nonce; variables = variables }

not_found :
    (hash : Text) (r : Request) (db : Db)
    → is_empty r.key ≡ false
    → find_prior hash r db ≡ ok none
    → find (keyed r.service_id r.key) db.deployments ≡ none
unfolding find_prior
not_found hash r db k p = elim (Option-cases (find (keyed r.service_id r.key) db.deployments)) [
  | inl n ↦ n
  | inr (d, s) ↦ absurd (other d (equals d.request_hash hash) (rw s at (rw k at p)))
]
  where
    other : (d : Deployment) (b : Bool) → (if b then ok (some d) else err conflict) ≢ ok none
    other d true h = cc
    other d false h = cc

keyed_new :
    (hash : Text) (r : Request) (now : ℕ) (sealed : Text) (built : Settings)
    → is_empty r.key ≡ false
    → (keyed r.service_id r.key (new_deployment now hash sealed r built) ≡ true)
      × (equals (new_deployment now hash sealed r built).request_hash hash ≡ true)
unfolding new_deployment
keyed_new hash r now sealed built k =
    (rw (==_refl r.service_id) (equals_refl r.key), rw k (equals_refl hash))

found_again :
    (hash : Text) (r : Request) (db : Db) (fresh : ℕ) (nonce : Text) (vs : Result Env) (now : ℕ)
    (sealed : Text) (c built : Settings)
    → is_empty r.key ≡ false
    → find_prior hash r db ≡ ok none
    → find_prior hash
        (again r fresh nonce vs)
        (write_deployment db r.service_id c (new_deployment now hash sealed r built))
      ≡ ok (some (new_deployment now hash sealed r built))
unfolding find_prior write_deployment again
found_again hash r db fresh nonce vs now sealed c built k p =
    let d = new_deployment now hash sealed r built in
    let (same, e) = keyed_new hash r now sealed built k in
    let f : find (keyed r.service_id r.key) (db.deployments ++ d ∷ []) ≡ some d =
      find-append (keyed r.service_id r.key) db.deployments d
      ∙ rw (not_found hash r db k p) (rw same refl) in
    rw k (rw f (rw e refl))

-- a request that passes the checks on the service and finds a prior one returns that
returns_prior :
    (o : Outside) (later : ℕ) (r : Request) (q : Db) (s : Service) (built : Settings)
    (d : Deployment)
    → find (λ s. s.id == r.service_id) q.services ≡ some s
    → deployment_settings (service_settings s r.spec) r.start_command ≡ ok built
    → check_request s r ≡ ok tt
    → find_prior (o.request_hash r.spec r.start_command) r q ≡ ok (some d)
    → enqueue o later r q ≡ ok (d, q)
unfolding enqueue enqueue_for enqueue_checked
returns_prior o later r q s built d f b c p = rw f (rw b (rw c (rw p refl)))

check_again :
    (s : Service) (c : Settings) (r : Request)
    → check_request (with_settings c s) r ≡ check_request s r
unfolding check_request check_template
check_again s c r = refl

service_again :
    (ss : List Service) (service : ℕ) (c : Settings) (s : Service)
    → find (λ s. s.id == service) ss ≡ some s
    → find (λ s. s.id == service) (update (λ s. s.id == service) (with_settings c) ss)
      ≡ some (with_settings c s)
service_again ss service c s f =
    find-update (λ s. s.id == service) (λ s. s.id == service) (with_settings c) ss (λ x. refl)
    ∙ (ap (updated (λ s. s.id == service) (with_settings c)) f
        ∙ rw (find_sound (λ s. s.id == service) ss f) refl)

checks_again :
    (s : Service) (r : Request) (fresh : ℕ) (nonce : Text) (vs : Result Env)
    → check_request s r ≡ ok tt
    → check_request s (again r fresh nonce vs) ≡ ok tt
unfolding check_request again
checks_again s r fresh nonce vs c = c

again_inserted :
    (o : Outside) (now : ℕ) (r : Request) (db : Db) (s : Service) (built : Settings) (sealed : Text)
    → is_empty r.key ≡ false
    → check_request s r ≡ ok tt
    → find (λ s. s.id == r.service_id) db.services ≡ some s
    → deployment_settings (service_settings s r.spec) r.start_command ≡ ok built
    → find_prior (o.request_hash r.spec r.start_command) r db ≡ ok none
    → (later fresh : ℕ) (nonce : Text) (vs : Result Env)
    → let d = new_deployment now (o.request_hash r.spec r.start_command) sealed r built in
      let q = write_deployment db r.service_id (service_settings s r.spec) d in
      enqueue o later (again r fresh nonce vs) q ≡ ok (d, q)
unfolding again write_deployment
again_inserted o now r db s built sealed k c f b p later fresh nonce vs =
    let saved = service_settings s r.spec in
    let hash = o.request_hash r.spec r.start_command in
    let d = new_deployment now hash sealed r built in
    returns_prior o later (again r fresh nonce vs) (write_deployment db r.service_id saved d)
      (with_settings saved s) built d (service_again db.services r.service_id saved s f)
      (ap (λ c. deployment_settings c r.start_command) (settings_again s r.spec) ∙ b)
      (check_again s saved (again r fresh nonce vs) ∙ checks_again s r fresh nonce vs c)
      (found_again hash r db fresh nonce vs now sealed saved built k p)

again_prior :
    (o : Outside) (later : ℕ) (r : Request) (db : Db) (s : Service) (built : Settings)
    (d : Deployment) (fresh : ℕ) (nonce : Text) (vs : Result Env)
    → find (λ s. s.id == r.service_id) db.services ≡ some s
    → deployment_settings (service_settings s r.spec) r.start_command ≡ ok built
    → check_request s r ≡ ok tt
    → find_prior (o.request_hash r.spec r.start_command) r db ≡ ok (some d)
    → enqueue o later (again r fresh nonce vs) db ≡ ok (d, db)
unfolding again find_prior
again_prior o later r db s built d fresh nonce vs f b c p =
    returns_prior o later (again r fresh nonce vs) db s built d f b
      (checks_again s r fresh nonce vs c) p

-- A request that carries a key and succeeds, sent again at any later time with whatever the store
-- draws anew, returns the deployment that it made and changes nothing.
pub enqueue-again :
    (o : Outside) (now : ℕ) (r : Request) (db : Db) (d : Deployment) (q : Db)
    → is_empty r.key ≡ false
    → enqueue o now r db ≡ ok (d, q)
    → (later fresh : ℕ) (nonce : Text) (vs : Result Env)
    → enqueue o later (again r fresh nonce vs) q ≡ ok (d, q)
unfolding enqueue enqueue_for enqueue_checked
enqueue-again o now r db d q k h later fresh nonce vs =
    let (s, f, h1) =
      >>=-eq-ok (or_else (find (λ s. s.id == r.service_id) db.services) no_rows)
        (λ s. enqueue_for o now r s db) h in
    let (built, b, h2) =
      >>=-eq-ok (deployment_settings (service_settings s r.spec) r.start_command)
        (λ built. check_request s r >> enqueue_checked o now r s built db) h1 in
    let (c, h3) = then-eq-ok (check_request s r) (enqueue_checked o now r s built db) h2 in
    let (prior, p, h4) =
      >>=-eq-ok (find_prior (o.request_hash r.spec r.start_command) r db)
        (λ prior. unless_prior prior db (enqueue_new o now r s built db)) h3 in
    by_prior s built (or_else-eq-ok _ _ f) b c prior p h4
  where
    by_prior :
        (s : Service) (built : Settings)
        → find (λ s. s.id == r.service_id) db.services ≡ some s
        → deployment_settings (service_settings s r.spec) r.start_command ≡ ok built
        → check_request s r ≡ ok tt
        → (prior : Option Deployment)
        → find_prior (o.request_hash r.spec r.start_command) r db ≡ ok prior
        → unless_prior prior db (enqueue_new o now r s built db) ≡ ok (d, q)
        → enqueue o later (again r fresh nonce vs) q ≡ ok (d, q)
    by_prior s built f b c none p e =
        let v = insert_cases o now r db s built f b p e in
        let same : s ≡ v.service = of_some_eq (sym f ∙ v.service_found) in
        rw v.written (
          rw v.row (
            again_inserted o now r db v.service v.built v.sealed k
              (subst (λ s. check_request s r ≡ ok tt) same c) v.service_found v.built_ok v.no_prior
              later fresh nonce vs))
    by_prior s built f b c (some x) p e =
        let (same, kept) = ok-pair e in
        rw (← same) (rw (← kept) (again_prior o later r db s built x fresh nonce vs f b c p))
