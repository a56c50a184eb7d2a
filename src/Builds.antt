-- ===== src/Builds.antt =====
-- builds/model.go: the source of a service and the builds made from it.
pub mod Queue
pub mod Running
pub mod Flush
pub mod Invariant
pub mod Histories
pub mod Pushes
mod Tests
use cloudrail.Deployment.Spec
use cloudrail.Common.{
  Bool, Option, [], all, false, if◌then◌else◌, leb, length, ltb, not, true, ℕ, ◌&&◌, ◌++◌, ◌==◌,
  ◌||◌, ◌∷◌,
}
use cloudrail.Common.Int.{pos, negsuc, is_below, negsuc, ℤ}
use cloudrail.Common.Text.{
  Text, bytes, contains_any, equals, has_prefix, has_suffix, is_alphanumeric, is_empty, trim,
}
use cloudrail.Deployment.Model.{Lease, Spec}
use cloudrail.Deployment.Spec.{is_hex, validate}
use cloudrail.Paths.{clean}
use cloudrail.Result.{
  Result, invalid_branch, invalid_builder, invalid_command, invalid_repository, refuse, require,
  unsafe_path, ◌>>=◌, ◌>>◌,
}

-- The texts that the program compares a source type with.
pub data SourceType : Type 0 where
  github image empty function template : SourceType

pub data BuildStatus : Type 0 where
  queued building succeeded failed cancelled : BuildStatus

pub record Config : Type 0 where
  pub repository : Text
  pub installation : ℤ
  pub branch : Text
  pub root : Text
  pub builder : Text
  pub dockerfile : Text
  pub build_command : Text
  pub start_command : Text
  pub port : ℤ
  pub health_path : Text
  pub auto_deploy : Bool

-- A row of source_builds. `request_key` is empty where the column is NULL, and `deployment_id` is
-- none where it is ''.
pub record Build : Type 0 where
  pub id : ℕ
  pub service_id : ℕ
  pub commit : Text
  pub config : Config
  pub status : BuildStatus
  pub image : Text
  pub deployment_id : Option ℕ
  pub logs : Text
  pub error : Text
  pub created_at : ℕ
  pub request_key : Text
  pub cancel_requested : Bool
  pub lease : Lease

-- status IN ('queued','building')
unfoldable pub build_pending : BuildStatus → Bool
build_pending queued = true
build_pending building = true
build_pending _ = false

-- [A-Za-z0-9_.-]
unfoldable pub repository_byte : ℕ → Bool
unfolding is_alphanumeric
repository_byte c = is_alphanumeric c || c == b'_' || c == b'.' || c == b'-'

-- [A-Za-z0-9_.-]+$
unfoldable pub match_name : Text → Bool
unfolding repository_byte
match_name s = not (is_empty s) && all repository_byte s

-- [A-Za-z0-9_.-]*/[A-Za-z0-9_.-]+$
unfoldable pub match_owner : Text → Bool
unfolding repository_byte match_name
match_owner [] = false
match_owner (c ∷ s) =
    let rest = match_owner s in if c == b'/' then match_name s else repository_byte c && rest

-- repoPattern
unfoldable pub match_repository_name : Text → Bool
unfolding match_owner repository_byte
match_repository_name [] = false
match_repository_name (c ∷ s) = repository_byte c && match_owner s

-- ValidRepository
unfoldable pub valid_repository : Text → Bool
unfolding match_repository_name has_prefix has_suffix
valid_repository s =
    match_repository_name s
    && leb (length s) 200
    && not (has_prefix s (bytes "../"))
    && not (has_suffix s (bytes "/.."))
    && not (has_prefix s (bytes "./"))

abbrev is_zero_digit : ℕ → Bool
is_zero_digit c = c == b'0'

-- ValidSHA
unfoldable pub valid_sha : Text → Bool
unfolding is_hex trim
valid_sha s = all is_hex s && length s == 40 && not (is_empty (trim is_zero_digit s))

-- safePath
unfoldable pub safe_path : Text → Bool
unfolding has_prefix contains_any equals clean
safe_path s =
    ltb (length s) 256
    && not (has_prefix s (bytes "/"))
    && not (contains_any s (0 ∷ b'\\' ∷ 13 ∷ 10 ∷ []))
    && not (equals s (bytes ".."))
    && not (has_prefix (clean s) (bytes "../"))

-- the image of the Spec that Config.Validate makes up
unfoldable pub example_image : Text
example_image =
    bytes "example@sha256:aaaaaaaaaaaaaaaaaaaaaaaaaaaaaaaaaaaaaaaaaaaaaaaaaaaaaaaaaaaaaaaa"

-- Config.Validate
unfoldable pub validate_config : Config → Result (Unit {0})
unfolding valid_repository safe_path contains_any equals
validate_config c = do
  refuse (not (valid_repository c.repository) || is_below c.installation 0) invalid_repository
  refuse
      (is_empty c.branch || ltb 200 (length c.branch) || contains_any c.branch (0 ∷ 13 ∷ 10 ∷ []))
      invalid_branch
  refuse (not (safe_path c.root) || not (safe_path c.dockerfile)) unsafe_path
  require (equals c.builder (bytes "dockerfile") || equals c.builder (bytes "railpack"))
      invalid_builder
  refuse
      (ltb 1024 (length c.build_command)
        || ltb 1024 (length c.start_command)
        || contains_any (c.build_command ++ c.start_command) (0 ∷ []))
      invalid_command
  Spec.validate (record { image = example_image; port = c.port; health_path = c.health_path })

unfoldable pub same_number : ℤ → ℤ → Bool
same_number (pos a) (pos b) = a == b
same_number (negsuc a) (negsuc b) = a == b
same_number _ _ = false

unfoldable pub same_flag : Bool → Bool → Bool
same_flag true b = b
same_flag false b = not b

-- c == d, on two values of the struct
unfoldable pub same_config : Config → Config → Bool
unfolding equals same_number same_flag
same_config c d =
    equals c.repository d.repository
    && same_number c.installation d.installation
    && equals c.branch d.branch
    && equals c.root d.root
    && equals c.builder d.builder
    && equals c.dockerfile d.dockerfile
    && equals c.build_command d.build_command
    && equals c.start_command d.start_command
    && same_number c.port d.port
    && equals c.health_path d.health_path
    && same_flag c.auto_deploy d.auto_deploy
