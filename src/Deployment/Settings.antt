-- ===== src/Deployment/Settings.antt =====
-- deployment/operations.go: the settings of a service, their defaults and their validation.
use cloudrail.Common.{
  ℕ, Bool, true, false, not, ◌&&◌, ◌||◌, Option, none, some, List, [], ◌∷◌, ◌++◌, ◌==◌, ltb,
  if◌then◌else◌, length, any, map, take,
}
use cloudrail.Common.Int.{pos, is_below, is_above, is_zero}
use cloudrail.Common.Text.{
  Text, bytes, equals, is_empty, has_prefix, contains_any, trim, to_lower, is_digit, is_lower,
}
use cloudrail.Paths.{clean}
use cloudrail.Result.{
  Result, ok, require, refuse, ◌>>◌, invalid_kind, invalid_resources, invalid_mount, system_mount,
  invalid_command, timeout_without_command, invalid_timeout, invalid_restart_policy,
  invalid_retries, retries_required, invalid_target_port,
}
use cloudrail.Deployment.Model.{
  Settings, Service, Kind, http, postgres, redis, mysql, mongo, Workload, RestartPolicy,
  is_data_kind,
}

-- the least memory of a kind
unfoldable pub min_memory : Kind → ℕ
min_memory postgres = 256
min_memory mysql = 512
min_memory mongo = 512
min_memory _ = 64

abbrev pub is_http : Kind → Bool
is_http http = true
is_http _ = false

abbrev pub blocked_mounts : List Text
blocked_mounts =
    bytes "/proc"
    ∷ bytes "/sys"
    ∷ bytes "/dev"
    ∷ bytes "/etc"
    ∷ bytes "/bin"
    ∷ bytes "/sbin"
    ∷ bytes "/usr"
    ∷ bytes "/var/run"
    ∷ []

-- MountPath == blocked || HasPrefix(MountPath, blocked+"/")
unfoldable pub is_below_mount : Text → Text → Bool
unfolding equals has_prefix
is_below_mount mount blocked = equals mount blocked || has_prefix mount (blocked ++ (b'/' ∷ []))

unfoldable pub validate_mount : Text → Result (Unit {0})
unfolding is_below_mount contains_any
validate_mount [] = ok tt
validate_mount (c ∷ rest) =
    let mount = c ∷ rest in
    do
      refuse
          (not (c == b'/')
            || not (equals (clean mount) mount)
            || equals mount (bytes "/")
            || contains_any mount (0 ∷ 13 ∷ 10 ∷ b'\\' ∷ b':' ∷ []))
          invalid_mount
      refuse (any (is_below_mount mount) blocked_mounts) system_mount

unfoldable pub validate_timeout : Settings → Result (Unit {0})
validate_timeout c =
    if is_empty c.pre_deploy_command
    then require (is_zero c.pre_deploy_timeout_seconds) timeout_without_command
    else refuse
        (is_below c.pre_deploy_timeout_seconds 1 || is_above c.pre_deploy_timeout_seconds 3600)
        invalid_timeout

unfoldable pub validate_commands : Settings → Result (Unit {0})
unfolding validate_timeout
validate_commands c = do
  refuse
      (ltb 1024 (length c.start_command)
        || ltb 1024 (length c.pre_deploy_command)
        || any (λ b. b == 0) (c.start_command ++ c.pre_deploy_command))
      invalid_command
  validate_timeout c

abbrev known_policy : RestartPolicy → Bool
known_policy (RestartPolicy.other _) = false
known_policy RestartPolicy.unset = true
known_policy _ = true

abbrev pub is_on_failure : RestartPolicy → Bool
is_on_failure RestartPolicy.on_failure = true
is_on_failure _ = false

unfoldable pub validate_restart : Settings → Result (Unit {0})
validate_restart c = do
  require (known_policy c.restart_policy) invalid_restart_policy
  refuse (is_below c.restart_max_retries 0 || is_above c.restart_max_retries 100) invalid_retries
  refuse (is_on_failure c.restart_policy && is_below c.restart_max_retries 1) retries_required

-- Settings.Validate
unfoldable pub validate : Settings → Result (Unit {0})
unfolding min_memory validate_mount validate_commands validate_restart
validate c = do
  refuse (not (is_http c.kind) && not (is_data_kind c.kind)) invalid_kind
  refuse
      ((is_below c.memory_mb (min_memory c.kind) || is_above c.memory_mb 4096)
        || (is_below c.cpu_millis 100 || is_above c.cpu_millis 4000))
      invalid_resources
  validate_mount c.mount_path
  validate_commands c
  validate_restart c
  refuse (is_below c.target_port 0 || is_above c.target_port 65535) invalid_target_port

unfoldable pub default_target_port : Kind → ℕ
default_target_port postgres = 5432
default_target_port redis = 6379
default_target_port mysql = 3306
default_target_port mongo = 27017
default_target_port _ = 80

-- [a-z0-9-]
unfoldable pub slug_byte : ℕ → Bool
unfolding is_lower is_digit
slug_byte c = is_lower c || is_digit c || c == b'-'

-- ReplaceAllString(slug, "-") of each run of other bytes; `inside` is true within a run
unfoldable pub slug_runs : Bool → Text → Text
unfolding slug_byte
slug_runs inside [] = []
slug_runs inside (c ∷ s) =
    let rest = slug_runs (not (slug_byte c)) s in
    if slug_byte c then c ∷ rest else (if inside then rest else b'-' ∷ rest)

abbrev is_hyphen : ℕ → Bool
is_hyphen c = c == b'-'

abbrev or_service : Text → Text
or_service [] = bytes "service"
or_service (c ∷ s) = c ∷ s

unfoldable pub slug : Text → Text
unfolding slug_runs to_lower trim
slug name =
    let s = or_service (trim is_hyphen (slug_runs false (map to_lower name))) in
    if ltb 40 (length s) then trim is_hyphen (take 40 s) else s

-- privateHostname; `id` is the text of the identifier
unfoldable pub private_hostname : Text → Text → Text
unfolding slug
private_hostname name id = slug name ++ (b'-' ∷ take 6 id) ++ bytes ".internal"

-- normalizeServiceSettings; `id` is the text of the service's identifier
unfoldable pub normalize : Text → Service → Service
unfolding private_hostname default_target_port
normalize id s =
    let c = s.settings in
    record s {
      settings = record c {
        private_host =
            if is_empty c.private_host then private_hostname s.name id else c.private_host;
        target_port =
            if is_zero c.target_port then pos (default_target_port c.kind) else c.target_port;
      };
    }

abbrev pub is_web : Workload → Bool
is_web Workload.unset = true
is_web Workload.web = true
is_web _ = false

abbrev pub enabled : Option Bool → Bool
enabled none = true
enabled (some b) = b

-- Service.PublicHTTP
unfoldable pub public_http : Service → Bool
public_http s =
    if is_data_kind s.settings.kind || not (is_web s.workload)
    then false
    else enabled s.settings.public_enabled
