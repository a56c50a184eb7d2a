-- ===== src/Deployment/Jobs/Laws.antt =====
-- The life of a job's lease.
use cloudrail.Common.{
  ℕ, ◌+◌, ◌≤◌, ◌<◌, ◌≡◌, ◌≢◌, refl, true, false, none, some, arith, ltb, ◌==◌, ◌&&◌, if◌then◌else◌,
}
use cloudrail.Result.{ok, err, conflict}
use cloudrail.Deployment.Model.{Lease, seconds}
use cloudrail.Deployment.Jobs.{
  max_attempts, coalesce, may_start, started, is_expired, is_due, check_attempt, fresh_lease,
}

-- What holds of the lease of every job: at most three attempts, and a deadline and a token exactly
-- where an attempt was made.
pub record IsLease (l : Lease) : Type 0 where
  pub attempts : l.attempt ≤ max_attempts
  pub no_token : l.attempt ≡ 0 → l.attempt_token ≡ none
  pub no_deadline : l.attempt ≡ 0 → l.deadline ≡ none
  pub has_deadline : 0 < l.attempt → l.deadline ≢ none

pub fresh_lease-IsLease : (now : ℕ) → IsLease (fresh_lease now)
unfolding fresh_lease
fresh_lease-IsLease now = ground arith

pub started-IsLease :
    (now token : ℕ) (l : Lease) → IsLease l → may_start now l ≡ true → IsLease (started now token l)
unfolding started may_start
started-IsLease now token l h m = record {
  attempts = ground arith;
  no_token = λ e. absurd (ground arith);
  no_deadline = λ e. absurd (ground arith);
  has_deadline = λ e. ground arith;
}

-- A job that is due and that the expiry pass has left alone may be started, unless its deadline is
-- the very instant of the transaction.
may_start_of_due :
    (now : ℕ) (l : Lease)
    → is_expired now l ≡ false
    → is_due now l ≡ true
    → l.deadline ≢ some now
    → may_start now l ≡ true
unfolding is_expired is_due may_start
may_start_of_due now l e d h = ground arith

-- A started attempt's token is accepted exactly until the deadline, and no other token is: an agent
-- that was overtaken gets a conflict.
check_attempt-started :
    (now token later given : ℕ) (l : Lease)
    → check_attempt later (some given) false (started now token l) ≡ (
        if token == given && ltb later (coalesce l.deadline (now + seconds 600))
        then ok tt
        else err conflict)
unfolding check_attempt started
check_attempt-started now token later given l = ground arith

-- The deadline of a job is set by its first attempt and stays: attempts do not extend it.
started-deadline :
    (now token again other : ℕ) (l : Lease)
    → (started again other (started now token l)).deadline ≡ (started now token l).deadline
unfolding started
started-deadline now token again other l = refl
