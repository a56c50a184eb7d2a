-- ===== src/Builds/Invariant/Rows.antt =====
-- The rows that the operations on builds write.
use cloudrail.Builds.{Build, BuildStatus, build_pending}
use cloudrail.Builds.Invariant.{IsBuild}
use cloudrail.Builds.Running.{
  BuildReport, accepts, build_cancelled, build_queued, build_reported, build_started, due_build,
  expirable_build, expired_build, is_building, is_succeeded, same_build_status, start_build,
  unless_cancelled,
}
use cloudrail.Common.{
  All, Bool, Bool-cases, List, ap, arith, false, if◌then◌else◌, inl, inr, is_some, not, refl, sym,
  true, ℕ, ◌&&◌, ◌||◌, ◌∙◌, ◌≡◌, ◌≢◌, ◌≤◌,
}
use cloudrail.Common.Table.{update}
use cloudrail.Common.Table.Rows.{All-of, All-update-to}
use cloudrail.Deployment.Jobs.{is_due, is_expired}

pub pending_not_succeeded : (s : BuildStatus) → build_pending s ≡ true → is_succeeded s ≡ false
unfolding build_pending
pending_not_succeeded BuildStatus.queued h = refl
pending_not_succeeded BuildStatus.building h = refl
pending_not_succeeded BuildStatus.succeeded h = cc
pending_not_succeeded BuildStatus.failed h = cc
pending_not_succeeded BuildStatus.cancelled h = cc

-- a row that has not succeeded is not deployed
pub undeployed_lem :
    (b : Build) → IsBuild b → build_pending b.status ≡ true → is_some b.deployment_id ≢ true
undeployed_lem b k h e = absurd (cc (pending_not_succeeded b.status h, k.deployed e))

and_false : (a : Bool) → (a && false) ≡ false
and_false true = refl
and_false false = refl

-- a change of a pending row to a status other than success
pub end-IsBuild :
    (b c : Build)
    → IsBuild b
    → build_pending b.status ≡ true
    → c.lease ≡ b.lease
    → c.deployment_id ≡ b.deployment_id
    → is_succeeded c.status ≡ false
    → IsBuild c
end-IsBuild b c k h l d s = record {
  attempts = rw l k.attempts;
  not_both = rw s (and_false c.cancel_requested);
  deployed = λ e. absurd (undeployed_lem b k h (sym (ap (λ x. is_some x) d) ∙ e));
}

pub unless_cancelled_lem :
    (b : Build)
    → (is_succeeded (unless_cancelled b BuildStatus.failed) ≡ false)
      × (build_pending (unless_cancelled b BuildStatus.failed) ≡ false)
unfolding build_pending
unless_cancelled_lem b = elim (Bool-cases b.cancel_requested) [
  | inl e ↦ (rw e refl, rw e refl)
  | inr e ↦ (rw e refl, rw e refl)
]

-- after the expiry pass, no row is left to expire
pub none_expirable :
    (now : ℕ) (bs : List Build)
    → All (λ b. expirable_build now b ≡ false) (update (expirable_build now) expired_build bs)
none_expirable now bs =
    All-update-to (λ b. Unit {0}) (λ b. expirable_build now b ≡ false) (expirable_build now)
      expired_build bs (λ b u h. rw (unless_cancelled_lem b).1 refl) (λ b u h. h)
      (All-of (λ b. Unit {0}) (λ b. tt) bs)

-- a row that is due and not expired has attempts left
pub attempts_left :
    (now : ℕ) (b : Build)
    → expirable_build now b ≡ false
    → due_build now b ≡ true
    → b.lease.attempt ≤ 2
unfolding is_expired is_due
attempts_left now b e d = ground arith

pub start-IsBuild :
    (now token : ℕ) (b : Build)
    → IsBuild b
    → build_pending b.status ≡ true
    → b.lease.attempt ≤ 2
    → IsBuild (start_build now token b)
unfolding build_started
start-IsBuild now token b k h a = record {
  attempts = omega arith;
  not_both = and_false b.cancel_requested;
  deployed = λ e. absurd (undeployed_lem b k h e);
}

-- a report changes no status that stands beside a deployment
succeeded_stays :
    (c : Bool) (s t : BuildStatus)
    → (build_pending s || same_build_status s t) ≡ true
    → not (c && is_succeeded t) ≡ true
    → is_succeeded s ≡ true
    → is_succeeded (if c && not (is_building t) then BuildStatus.cancelled else t) ≡ true
unfolding build_pending same_build_status
succeeded_stays false BuildStatus.succeeded BuildStatus.succeeded h n e = refl
succeeded_stays true BuildStatus.succeeded BuildStatus.succeeded h n e = cc
succeeded_stays c BuildStatus.succeeded BuildStatus.queued h n e = cc
succeeded_stays c BuildStatus.succeeded BuildStatus.building h n e = cc
succeeded_stays c BuildStatus.succeeded BuildStatus.failed h n e = cc
succeeded_stays c BuildStatus.succeeded BuildStatus.cancelled h n e = cc
succeeded_stays c BuildStatus.queued t h n e = cc
succeeded_stays c BuildStatus.building t h n e = cc
succeeded_stays c BuildStatus.failed t h n e = cc
succeeded_stays c BuildStatus.cancelled t h n e = cc

reported_not_both :
    (c : Bool) (t : BuildStatus)
    → (c && is_succeeded (if c && not (is_building t) then BuildStatus.cancelled else t)) ≡ false
reported_not_both false t = refl
reported_not_both true BuildStatus.queued = refl
reported_not_both true BuildStatus.building = refl
reported_not_both true BuildStatus.succeeded = refl
reported_not_both true BuildStatus.failed = refl
reported_not_both true BuildStatus.cancelled = refl

-- a report makes no finished build pending
pub reported_pending :
    (c : Bool) (s t : BuildStatus)
    → (build_pending s || same_build_status s t) ≡ true
    → build_pending (if c && not (is_building t) then BuildStatus.cancelled else t) ≡ true
    → build_pending s ≡ true
unfolding build_pending same_build_status
reported_pending c BuildStatus.queued t h p = refl
reported_pending c BuildStatus.building t h p = refl
reported_pending c s BuildStatus.building h p = by_status s h
  where
    by_status :
        (s : BuildStatus)
        → (build_pending s || same_build_status s BuildStatus.building) ≡ true
        → build_pending s ≡ true
    by_status BuildStatus.queued h = refl
    by_status BuildStatus.building h = refl
    by_status BuildStatus.succeeded h = cc
    by_status BuildStatus.failed h = cc
    by_status BuildStatus.cancelled h = cc
reported_pending true s t h p = cc
reported_pending false s t h p = cc

pub report-IsBuild :
    (now id : ℕ) (r : BuildReport) (b : Build)
    → IsBuild b
    → accepts now id r b ≡ true
    → IsBuild (build_reported r b)
unfolding accepts build_pending same_build_status
report-IsBuild now id r b k h = record {
  attempts = k.attempts;
  not_both = reported_not_both b.cancel_requested r.status;
  deployed = λ e.
      succeeded_stays b.cancel_requested b.status r.status (ground arith) (ground arith)
        (k.deployed e);
}

pub cancelled_lem :
    (s : BuildStatus)
    → build_pending s ≡ true
    → is_succeeded (if build_queued s then BuildStatus.cancelled else s) ≡ false
unfolding build_pending
cancelled_lem BuildStatus.queued h = refl
cancelled_lem BuildStatus.building h = refl
cancelled_lem BuildStatus.succeeded h = cc
cancelled_lem BuildStatus.failed h = cc
cancelled_lem BuildStatus.cancelled h = cc

pub cancel-IsBuild :
    (b : Build) → IsBuild b → build_pending b.status ≡ true → IsBuild (build_cancelled b)
unfolding build_cancelled build_pending
cancel-IsBuild b k h = record {
  attempts = k.attempts;
  not_both = cancelled_lem b.status h;
  deployed = λ e. absurd (undeployed_lem b k h e);
}

pub build_cancelled-id : (b : Build) → (build_cancelled b).id ≡ b.id
unfolding build_cancelled
build_cancelled-id b = refl

pub build_cancelled-service_id : (b : Build) → (build_cancelled b).service_id ≡ b.service_id
unfolding build_cancelled
build_cancelled-service_id b = refl

pub accepts_status :
    (now id : ℕ) (r : BuildReport) (b : Build)
    → accepts now id r b ≡ true
    → (build_pending b.status || same_build_status b.status r.status) ≡ true
unfolding accepts
accepts_status now id r b h = ground arith
