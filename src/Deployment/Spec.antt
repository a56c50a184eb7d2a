-- ===== src/Deployment/Spec.antt =====
-- deployment/model.go: the validation of names and of what a deployment request asks for. The two
-- regular expressions are matched byte by byte.
pub mod Laws
use text.Mathlib.Text.{◌==◌ as str_eq}
use cloudrail.Common.{
  ℕ, zero, suc, Bool, true, false, not, ◌&&◌, ◌||◌, List, [], ◌∷◌, ◌==◌, leb, ltb, if◌then◌else◌,
  length, all, drop,
}
use cloudrail.Common.Int.{ℤ, is_below, is_above}
use cloudrail.Common.Text.{
  Text, bytes, is_empty, has_prefix, contains_any, is_digit, is_lower, is_alphanumeric,
}
use cloudrail.Result.{
  Result, ok, require, refuse, ◌>>=◌, ◌>>◌, invalid_name, invalid_environment, invalid_workload,
  invalid_source, invalid_image, invalid_port, invalid_health_path,
}
use cloudrail.Deployment.Model.{Spec, ComputeSpec, Workload, web, worker, cron}

-- [a-zA-Z0-9 _.-]
unfoldable pub name_byte : ℕ → Bool
unfolding is_alphanumeric
name_byte c = is_alphanumeric c || c == b' ' || c == b'_' || c == b'.' || c == b'-'

-- namePattern, ^[a-zA-Z0-9][a-zA-Z0-9 _.-]{0,59}$
unfoldable pub valid_name : Text → Bool
unfolding name_byte is_alphanumeric
valid_name [] = false
valid_name (c ∷ s) = is_alphanumeric c && all name_byte s && leb (length s) 59

-- [a-f0-9]
unfoldable pub is_hex : ℕ → Bool
unfolding is_digit
is_hex c = is_digit c || (leb b'a' c && leb c b'f')

-- [a-z0-9./:_-]
unfoldable pub image_byte : ℕ → Bool
unfolding is_digit is_lower
image_byte c =
    is_lower c || is_digit c || c == b'.' || c == b'/' || c == b':' || c == b'_' || c == b'-'

-- sha256:[a-f0-9]{64}
unfoldable pub match_digest : Text → Bool
unfolding is_hex has_prefix
match_digest s = has_prefix s (bytes "sha256:") && all is_hex (drop 7 s) && length (drop 7 s) == 64

-- [a-z0-9./:_-]*@sha256:[a-f0-9]{64}$; no byte of the class is an @
unfoldable pub match_repository : Text → Bool
unfolding image_byte match_digest
match_repository [] = false
match_repository (c ∷ s) =
    let rest = match_repository s in if c == b'@' then match_digest s else image_byte c && rest

-- imagePattern
unfoldable pub match_image : Text → Bool
unfolding match_repository is_digit is_lower
match_image [] = false
match_image (c ∷ s) = (is_lower c || is_digit c) && match_repository s

abbrev pub valid_image : Text → Bool
valid_image image = leb (length image) 512 && match_image image

unfoldable pub valid_health_path : Text → Bool
unfolding has_prefix contains_any
valid_health_path p =
    leb (length p) 200
    && has_prefix p (bytes "/")
    && not (has_prefix p (bytes "//"))
    && not (contains_any p (13 ∷ 10 ∷ 9 ∷ b' ' ∷ b'#' ∷ b'?' ∷ b'\\' ∷ []))

-- Spec.Validate
unfoldable pub validate : Spec → Result (Unit {0})
unfolding match_image valid_health_path
validate s = do
  require (valid_image s.image) invalid_image
  refuse (is_below s.port 1 || is_above s.port 65535) invalid_port
  require (valid_health_path s.health_path) invalid_health_path

abbrev pub known_workload : Workload → Bool
known_workload web = true
known_workload worker = true
known_workload cron = true
known_workload _ = false

-- ComputeSpec.Validate
unfoldable pub validate_compute : ComputeSpec → Result (Unit {0})
unfolding valid_name
validate_compute s = do
  require (valid_name s.name) invalid_name
  let environment = bytes s.environment
  refuse (is_empty environment || ltb 60 (length environment) || not (valid_name environment))
      invalid_environment
  require (known_workload s.workload) invalid_workload
  require
      (str_eq s.source_type "github"
        || str_eq s.source_type "image"
        || str_eq s.source_type "empty")
      invalid_source
