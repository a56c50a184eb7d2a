-- ===== src/Deployment/Jobs.antt =====
-- deployment/reliability.go: the attempts of a job, which fence the reports of an agent that was
-- overtaken.
pub mod Laws
use cloudrail.Common.{
  ℕ, ◌+◌, ◌*◌, ◌^◌, Bool, true, false, not, ◌&&◌, ◌||◌, Option, none, some, List, [], ◌∷◌, ◌++◌,
  ◌==◌, ◌==?◌, leb, ltb, if◌then◌else◌,
}
use cloudrail.Common.Text.{Text, bytes}
use cloudrail.Result.{Result, ok, err, require, conflict, null_column}
use cloudrail.Deployment.Model.{Lease, seconds}

abbrev pub max_attempts : ℕ
max_attempts = 3

-- COALESCE(deadline, now()+interval '10 minutes')
abbrev pub coalesce {ℓ} : {A : Type ℓ} → Option A → A → A
coalesce none a = a
coalesce (some b) a = b

-- attempt<3 AND (deadline IS NULL OR deadline>now())
unfoldable pub may_start : ℕ → Lease → Bool
may_start now l = ltb l.attempt max_attempts && ltb now (coalesce l.deadline (now + 1))

-- the SET list of nextAttempt; the new token is what ID returned
unfoldable pub started : ℕ → ℕ → Lease → Lease
started now token l = record {
  attempt = l.attempt + 1;
  attempt_token = some token;
  deadline = some (coalesce l.deadline (now + seconds 600));
  next_attempt = now + seconds (5 * 2 ^ l.attempt);
}

-- deadline<now() OR (attempt>=3 AND next_attempt<=now())
unfoldable pub is_expired : ℕ → Lease → Bool
is_expired now l =
    ltb (coalesce l.deadline now) now || (leb max_attempts l.attempt && leb l.next_attempt now)

-- next_attempt<=now()
unfoldable pub is_due : ℕ → Lease → Bool
is_due now l = leb l.next_attempt now

-- checkAttempt on the row of the job; `barred` is cancel_requested where the report activates. A
-- deadline that is NULL makes the test NULL, which cannot be read into a bool.
unfoldable pub check_attempt : ℕ → Option ℕ → Bool → Lease → Result (Unit {0})
check_attempt now none barred l = err conflict
check_attempt now (some token) barred l =
    if not (l.attempt_token ==? token) || barred
    then err conflict
    else elim l.deadline [ none ↦ err null_column | some d ↦ require (ltb now d) conflict ]

-- a row that was just inserted, by the defaults of its columns
unfoldable pub fresh_lease : ℕ → Lease
fresh_lease now = record { attempt = 0; attempt_token = none; deadline = none; next_attempt = now }

-- 'Execution retry limit or deadline reached; desired state will be reconciled'
unfoldable pub expired_message : Text
expired_message =
    bytes "Execution retry limit or deadline reached; desired state will be reconciled"
