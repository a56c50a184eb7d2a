-- ===== src/Deployment/Networking.antt =====
-- deployment/operations.go: the networking and the runtime settings of a service.
use cloudrail.Common.Int.{pos}
use cloudrail.Deployment.Settings
use cloudrail.Common.{Bool, if◌then◌else◌, some, ℕ, ◌&&◌, ◌==◌, ◌||◌}
use cloudrail.Common.Int.{is_above, is_below, is_zero, ℤ}
use cloudrail.Common.Table.{count, find, update}
use cloudrail.Common.Text.{Text, is_empty, is_space, trim}
use cloudrail.Deployment.Enqueue.{with_settings}
use cloudrail.Deployment.Model.{Db, RestartPolicy, Service, Settings}
use cloudrail.Deployment.Outside.{id_text}
use cloudrail.Deployment.Settings.{is_http, is_on_failure, is_web, normalize}
use cloudrail.Result.{
  Result, invalid_target_port, no_rows, not_web_service, ok, or_else, refuse, require, ◌>>=◌, ◌>>◌,
}

-- WHERE id=$1 AND settings->>'kind'='http'
abbrev pub http_service : ℕ → Service → Bool
http_service id s = s.id == id && is_http s.settings.kind

-- SaveNetworking
unfoldable pub save_networking : ℕ → Bool → ℤ → Db → Result (Settings × Db)
save_networking id public port db = do
  refuse (is_below port 1 || is_above port 65535) invalid_target_port
  s ← or_else (find (http_service id) db.services) no_rows
  require (is_web s.workload) not_web_service
  let c = record (normalize (id_text id) s).settings {
    public_enabled = some public;
    target_port = port;
  }
  Settings.validate c
  ok (c, record db { services = update (λ s. s.id == id) (with_settings c) db.services })

pub record RuntimeSettings : Type 0 where
  pub start_command : Text
  pub pre_deploy_command : Text
  pub pre_deploy_timeout_seconds : ℤ
  pub restart_policy : RestartPolicy
  pub restart_max_retries : ℤ

abbrev default_policy : RestartPolicy → RestartPolicy
default_policy RestartPolicy.unset = RestartPolicy.on_failure
default_policy p = p

-- the settings that SaveRuntimeSettings makes
unfoldable pub with_runtime : RuntimeSettings → Settings → Settings
with_runtime r c =
    let policy = default_policy r.restart_policy in
    let pre = trim is_space r.pre_deploy_command in
    let defaulted = is_on_failure policy && is_zero r.restart_max_retries in
    record c {
      start_command = trim is_space r.start_command;
      pre_deploy_command = pre;
      pre_deploy_timeout_seconds = if is_empty pre then pos 0 else r.pre_deploy_timeout_seconds;
      restart_policy = policy;
      restart_max_retries = if defaulted then pos 10 else r.restart_max_retries;
    }

-- SaveRuntimeSettings
unfoldable pub save_runtime : ℕ → RuntimeSettings → Db → Result (Settings × Db)
unfolding with_runtime
save_runtime id r db = do
  s ← or_else (find (http_service id) db.services) no_rows
  let c = with_runtime r s.settings
  Settings.validate c
  require (count (λ s. s.id == id) db.services == 1) no_rows
  ok (c, record db { services = update (λ s. s.id == id) (with_settings c) db.services })
