-- ===== src/Builds/Queue.antt =====
-- builds/store.go: the sources of the services, and queueing builds from them.
use cloudrail.Builds.{
  Build, BuildStatus, Config, SourceType, build_pending, same_config, same_number, valid_sha,
  validate_config,
}
use cloudrail.Common.{
  Bool, List, Option, [], false, if◌then◌else◌, leb, length, ltb, none, not, some, suc, true, ℕ,
  ◌&&◌, ◌++◌, ◌==◌, ◌||◌, ◌∷◌,
}
use cloudrail.Common.Int.{ℤ}
use cloudrail.Common.Table.{count, exists, find, select, update}
use cloudrail.Common.Text.{Text, bytes, equals, is_empty}
use cloudrail.Deployment.Jobs.{fresh_lease}
use cloudrail.Deployment.Model.{Db}
use cloudrail.Result.{
  Result, check_violation, conflict, duplicate_key, err, invalid_build, no_rows, ok, or_else,
  queue_full, refuse, require, ◌>>=◌, ◌>>◌,
}

-- A row of service_sources; `config` is none where the column holds '{}'.
pub record Source : Type 0 where
  pub service_id : ℕ
  pub config : Option Config
  pub source_type : SourceType

-- The tables of this component beside those of the deployments.
pub record BuildDb : Type 0 where
  pub main : Db
  pub sources : List Source
  pub builds : List Build
  pub deliveries : List Text

abbrev pub is_github : SourceType → Bool
is_github SourceType.github = true
is_github _ = false

abbrev pub source_of : ℕ → Source → Bool
source_of service s = s.service_id == service

abbrev pub with_config : Config → Source → Source
with_config c s = record s { config = some c; source_type = SourceType.github }

-- INSERT ... ON CONFLICT(service_id) DO UPDATE
unfoldable pub upsert_source : ℕ → Config → List Source → List Source
upsert_source service c ss =
    if exists (source_of service) ss
    then update (source_of service) (with_config c) ss
    else ss
      ++ record { service_id = service; config = some c; source_type = SourceType.github } ∷ []

-- Store.Save; the foreign key refuses a service that does not exist
unfoldable pub save_source : ℕ → Config → BuildDb → Result BuildDb
unfolding upsert_source
save_source service c db = do
  validate_config c
  require (exists (λ s. s.id == service) db.main.services) check_violation
  ok (record db { sources = upsert_source service c db.sources })

abbrev pub pending_build_of : ℕ → Build → Bool
pending_build_of service b = b.service_id == service && build_pending b.status

abbrev pub keyed_build : ℕ → Text → Build → Bool
keyed_build service key b = b.service_id == service && equals b.request_key key

abbrev pub build_by_id : ℕ → Build → Bool
build_by_id id b = b.id == id

unfoldable pub new_build : ℕ → ℕ → ℕ → Text → Text → Config → Build
new_build now fresh service sha key c = record {
  id = fresh;
  service_id = service;
  commit = sha;
  config = c;
  status = BuildStatus.queued;
  image = [];
  deployment_id = none;
  logs = [];
  error = [];
  created_at = now;
  request_key = key;
  cancel_requested = false;
  lease = fresh_lease now;
}

-- the build that an earlier request with the key made
unfoldable pub prior_build : ℕ → Text → Text → Config → List Build → Result (Option Build)
prior_build service sha key c bs =
    if is_empty key then ok none else elim (find (keyed_build service key) bs) [
      | none ↦ ok none
      | some b ↦ if equals b.commit sha && same_config b.config c then ok (some b) else err conflict
    ]

unfoldable pub insert_build : ℕ → ℕ → ℕ → Text → Text → Config → BuildDb → Result (Build × BuildDb)
insert_build now fresh service sha key c db = do
  refuse (leb 10 (count (pending_build_of service) db.builds)) queue_full
  refuse (exists (build_by_id fresh) db.builds) duplicate_key
  let b = new_build now fresh service sha key c
  ok (b, record db { builds = db.builds ++ b ∷ [] })

abbrev pub unless_built :
    Option Build → BuildDb → Result (Build × BuildDb) → Result (Build × BuildDb)
unless_built none db rest = rest
unless_built (some b) db rest = ok (b, db)

-- enqueue
unfoldable pub enqueue_build : ℕ → ℕ → ℕ → Text → Text → Config → BuildDb → Result (Build × BuildDb)
unfolding prior_build insert_build
enqueue_build now fresh service sha key c db = do
  refuse (not (valid_sha sha) || ltb 150 (length key)) invalid_build
  require (exists (λ s. s.id == service) db.main.services) no_rows
  prior ← prior_build service sha key c db.builds
  unless_built prior db (insert_build now fresh service sha key c db)

-- What a push names, and the time and identifiers that its transaction draws.
pub record Push : Type 0 where
  pub delivery : Text
  pub repo : Text
  pub branch : Text
  pub sha : Text
  pub installation : ℤ
  pub now : ℕ
  pub draw : ℕ → ℕ

-- the WHERE clause of Push, on the configuration of a source
unfoldable pub wants : Push → Source → Bool
wants p s = elim s.config [
  | none ↦ false
  | some c ↦
      equals c.repository p.repo
      && equals c.branch p.branch
      && same_number c.installation p.installation
      && c.auto_deploy
]

-- ORDER BY service_id
unfoldable pub insert_source : Source → List Source → List Source
insert_source s [] = s ∷ []
insert_source s (r ∷ rs) =
    let rest = insert_source s rs in if leb s.service_id r.service_id then s ∷ r ∷ rs else r ∷ rest

unfoldable pub sort_sources : List Source → List Source
unfolding insert_source
sort_sources [] = []
sort_sources (s ∷ ss) = insert_source s (sort_sources ss)

unfoldable pub push_sources : Push → ℕ → List Source → BuildDb → Result BuildDb
push_sources p n [] db = ok db
push_sources p n (s ∷ ss) db = do
  c ← or_else s.config no_rows
  b ← enqueue_build p.now (p.draw n) s.service_id p.sha (bytes "webhook:" ++ p.delivery) c db
  push_sources p (suc n) ss b.1

abbrev pub with_delivery : Text → BuildDb → BuildDb
with_delivery d db = record db { deliveries = db.deliveries ++ d ∷ [] }

-- Store.Push; one transaction, so a source that fails undoes the others and the delivery
unfoldable pub push : Push → BuildDb → Result BuildDb
unfolding push_sources sort_sources wants
push p db =
    if exists (equals p.delivery) db.deliveries
    then ok db
    else push_sources p 0 (sort_sources (select (wants p) db.sources)) (with_delivery p.delivery db)
