-- ===== src/Deployment/Cron.antt =====
-- deployment/cron.go and store.go: schedules and the reports of cron runs. The parser of schedules
-- is a third-party package, so it stands as a parameter.
use cloudrail.Common.{
  ℕ, Bool, true, false, ◌&&◌, ◌||◌, Option, some, ◌==◌, ltb, if◌then◌else◌, length,
}
use cloudrail.Common.Int.{ℤ}
use cloudrail.Common.Text.{
  Text, bytes, is_empty, has_prefix, trim, is_space, last_bytes, first_bytes,
}
use cloudrail.Common.Utf8.{to_valid_utf8}
use cloudrail.Common.Table.{find, count, update}
use cloudrail.Result.{
  Result, ok, err, require, refuse, or_else, ◌>>=◌, ◌>>◌, no_rows, conflict, invalid_status,
  invalid_schedule,
}
use cloudrail.Deployment.Model.{Db, Service, CronRun, RunStatus, cron}
use cloudrail.Deployment.Jobs.{check_attempt}
use cloudrail.Deployment.Report.{redact}
use cloudrail.Deployment.Outside.{Outside, deployment_env}

-- cronParser.Parse and Schedule.Next: none where the schedule does not parse
abbrev pub Parser : Type 0
Parser = Text → ℕ → Option ℕ

-- CronNext
unfoldable pub cron_next : Parser → Text → ℕ → Result ℕ
cron_next parse schedule now =
    let s = trim is_space schedule in
    do
      refuse (is_empty s || has_prefix s (bytes "@") || ltb 100 (length s)) invalid_schedule
      or_else (parse s now) invalid_schedule

abbrev pub is_cron_service : ℕ → Service → Bool
is_cron_service id s = s.id == id && elim s.workload [ cron ↦ true | _ ↦ false ]

abbrev pub scheduled : Text → ℕ → Service → Service
scheduled schedule next s = record s { cron_schedule = schedule; cron_next_run = some next }

-- SaveCronSchedule
unfoldable pub save_schedule : Parser → ℕ → ℕ → Text → Db → Result Db
save_schedule parse now id schedule db = do
  let s = trim is_space schedule
  next ← cron_next parse s now
  require (count (is_cron_service id) db.services == 1) no_rows
  ok (record db { services = update (is_cron_service id) (scheduled s next) db.services })

abbrev pub finished : RunStatus → Bool
finished RunStatus.succeeded = true
finished RunStatus.failed = true
finished _ = false

abbrev pub same_run : RunStatus → RunStatus → Bool
same_run RunStatus.queued RunStatus.queued = true
same_run RunStatus.running RunStatus.running = true
same_run RunStatus.succeeded RunStatus.succeeded = true
same_run RunStatus.failed RunStatus.failed = true
same_run _ _ = false

pub record RunReport : Type 0 where
  pub attempt : Option ℕ
  pub status : RunStatus
  pub exit_code : Option ℤ
  pub message : Text
  pub logs : Text

abbrev pub run_by_id : ℕ → CronRun → Bool
run_by_id id r = r.id == id

-- the columns of the UPDATE
abbrev pub run_reported : ℕ → RunReport → Text → Text → CronRun → CronRun
run_reported now r logs message run = record run {
  status = r.status;
  exit_code = r.exit_code;
  logs = to_valid_utf8 (last_bytes 16000 logs);
  error = to_valid_utf8 (first_bytes 1800 message);
  finished_at = some now;
}

-- ReportCronRun
unfoldable pub report_run : Outside → ℕ → ℕ → RunReport → Db → Result Db
report_run o now id r db = do
  require (finished r.status) invalid_status
  run ← or_else (find (run_by_id id) db.runs) no_rows
  if finished run.status then (if same_run run.status r.status then ok db else err conflict) else do
    check_attempt now r.attempt false run.lease
    d ← or_else (find (λ d. d.id == run.deployment_id) db.deployments) no_rows
    env ← deployment_env o d
    ok (record db {
      runs =
          update (run_by_id id) (run_reported now r (redact env r.logs) (redact env r.message))
            db.runs;
    })
