-- ===== src/Builds/Running.antt =====
-- builds/store.go: handing builds to the agent, what it reports of them, and cancelling one.
use cloudrail.Deployment.Spec
use cloudrail.Builds.{Build, BuildStatus, build_pending}
use cloudrail.Builds.Queue.{BuildDb, build_by_id}
use cloudrail.Common.Int.{pos}
use cloudrail.Common.{
  Bool, Option, false, if◌then◌else◌, length, ltb, none, not, some, true, ℕ, ◌&&◌, ◌*◌, ◌+◌, ◌==?◌,
  ◌==◌, ◌^◌, ◌||◌,
}
use cloudrail.Common.Table.{count, exists, first_by, update}
use cloudrail.Common.Text.{Text, bytes, has_prefix}
use cloudrail.Deployment.Claim.{older}
use cloudrail.Deployment.Jobs.{coalesce, is_due, is_expired}
use cloudrail.Deployment.Model.{Lease, seconds}
use cloudrail.Result.{
  Result, conflict, invalid_image, invalid_status, ok, refuse, report_too_large, require, ◌>>◌,
}

-- the final status of a build whose execution ended early
abbrev pub unless_cancelled : Build → BuildStatus → BuildStatus
unless_cancelled b status = if b.cancel_requested then BuildStatus.cancelled else status

unfoldable pub build_expired_message : Text
build_expired_message = bytes "Build execution deadline or retry limit reached"

abbrev pub expirable_build : ℕ → Build → Bool
expirable_build now b = build_pending b.status && is_expired now b.lease

abbrev pub expired_build : Build → Build
expired_build b = record b {
  status = unless_cancelled b BuildStatus.failed;
  error = build_expired_message;
}

abbrev pub due_build : ℕ → Build → Bool
due_build now b = build_pending b.status && is_due now b.lease

abbrev pub build_before : Build → Build → Bool
build_before a b = older a.created_at a.id b.created_at b.id

-- the columns of the UPDATE; unlike nextAttempt it has no condition, and allows 45 minutes
unfoldable pub build_started : ℕ → ℕ → Lease → Lease
build_started now token l = record {
  attempt = l.attempt + 1;
  attempt_token = some token;
  deadline = some (coalesce l.deadline (now + seconds 2700));
  next_attempt = now + seconds (5 * 2 ^ l.attempt);
}

abbrev pub start_build : ℕ → ℕ → Build → Build
start_build now token b = record b {
  status = BuildStatus.building;
  lease = build_started now token b.lease;
}

unfoldable pub expire_builds : ℕ → BuildDb → BuildDb
expire_builds now db = record db { builds = update (expirable_build now) expired_build db.builds }

-- Claim, from the result of its query
unfoldable pub claim_due_build : ℕ → ℕ → BuildDb → Option Build → Option Build × BuildDb
unfolding build_started
claim_due_build now token db none = (none, db)
claim_due_build now token db (some b) =
    (some b, record db { builds = update (build_by_id b.id) (start_build now token) db.builds })

-- Store.Claim: the build as it was read, and the store
unfoldable pub claim_build : ℕ → ℕ → BuildDb → Option Build × BuildDb
unfolding expire_builds claim_due_build
claim_build now token db =
    let expired = expire_builds now db in
    claim_due_build now token expired (first_by build_before (due_build now) expired.builds)

pub record BuildReport : Type 0 where
  pub attempt : Option ℕ
  pub status : BuildStatus
  pub image : Text
  pub logs : Text
  pub message : Text

abbrev pub reportable : BuildStatus → Bool
reportable BuildStatus.queued = false
reportable _ = true

abbrev pub is_succeeded : BuildStatus → Bool
is_succeeded BuildStatus.succeeded = true
is_succeeded _ = false

abbrev pub is_building : BuildStatus → Bool
is_building BuildStatus.building = true
is_building _ = false

abbrev build_index : BuildStatus → ℕ
build_index BuildStatus.queued = 0
build_index BuildStatus.building = 1
build_index BuildStatus.succeeded = 2
build_index BuildStatus.failed = 3
build_index BuildStatus.cancelled = 4

unfoldable pub same_build_status : BuildStatus → BuildStatus → Bool
same_build_status a b = build_index a == build_index b

-- attempt_token=$2 AND $2<>''
abbrev pub has_token : Option ℕ → Lease → Bool
has_token none l = false
has_token (some token) l = l.attempt_token ==? token

-- deadline>now(), which no row without a deadline meets
abbrev pub before_deadline : ℕ → Lease → Bool
before_deadline now l = elim l.deadline [ none ↦ false | some d ↦ ltb now d ]

-- the WHERE clause of Report
unfoldable pub accepts : ℕ → ℕ → BuildReport → Build → Bool
unfolding same_build_status
accepts now id r b =
    b.id == id
    && has_token r.attempt b.lease
    && before_deadline now b.lease
    && (build_pending b.status || same_build_status b.status r.status)
    && not (b.cancel_requested && is_succeeded r.status)

abbrev pub build_reported : BuildReport → Build → Build
build_reported r b = record b {
  status =
      if b.cancel_requested && not (is_building r.status) then BuildStatus.cancelled else r.status;
  image = r.image;
  logs = r.logs;
  error = r.message;
}

unfoldable pub registry : Text
registry = bytes "127.0.0.1:5001/cloudrail/"

unfoldable pub check_image : BuildReport → Result (Unit {0})
check_image r = if not (is_succeeded r.status) then ok tt else do
  require (has_prefix r.image registry) invalid_image
  Spec.validate (record { image = r.image; port = pos 80; health_path = bytes "/" })

-- Store.Report
unfoldable pub report_build : ℕ → ℕ → BuildReport → BuildDb → Result BuildDb
unfolding accepts check_image
report_build now id r db = do
  refuse (ltb 16000 (length r.logs) || ltb 1800 (length r.message)) report_too_large
  require (reportable r.status) invalid_status
  check_image r
  require (count (accepts now id r) db.builds == 1) conflict
  ok (record db { builds = update (accepts now id r) (build_reported r) db.builds })

abbrev pub cancellable_build : ℕ → Build → Bool
cancellable_build id b = b.id == id && build_pending b.status

abbrev pub build_queued : BuildStatus → Bool
build_queued BuildStatus.queued = true
build_queued _ = false

unfoldable pub build_cancelled : Build → Build
build_cancelled b = record b {
  cancel_requested = true;
  status = if build_queued b.status then BuildStatus.cancelled else b.status;
}

-- Store.Cancel
unfoldable pub cancel_build : ℕ → BuildDb → Result BuildDb
unfolding build_cancelled
cancel_build id db = do
  require (exists (cancellable_build id) db.builds) conflict
  ok (record db { builds = update (cancellable_build id) build_cancelled db.builds })
