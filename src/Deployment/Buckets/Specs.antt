-- ===== src/Deployment/Buckets/Specs.antt =====
-- deployment/buckets.go: the validation of a bucket and of its credentials.
use cloudrail.Common.{
  Bool, Option, [], all, any, drop, false, if◌then◌else◌, leb, length, ltb, not, take, ℕ, ◌&&◌,
  ◌++◌, ◌-◌, ◌==◌, ◌||◌, ◌∷◌,
}
use cloudrail.Common.Text.{
  Text, bytes, equals, is_alphanumeric, is_digit, is_empty, is_space, is_upper, trim, trim_right,
}
use cloudrail.Deployment.Spec.{valid_name}
use cloudrail.Result.{
  Result, endpoint_too_long, invalid_bucket, invalid_credentials, invalid_endpoint, ok, or_else,
  refuse, require, ◌>>=◌, ◌>>◌,
}

-- what net/url reports of an address
pub record Url : Type 0 where
  pub scheme : Text
  pub host : Text
  pub has_user : Bool
  pub query : Text
  pub fragment : Text
  pub path : Text

pub record Credentials : Type 0 where
  pub access_key : Text
  pub secret_key : Text

pub record Formats : Type 0 where
  pub parse_url : Text → Option Url
  -- json.Marshal and json.Unmarshal of bucketCredentials
  pub marshal_credentials : Credentials → Text
  pub unmarshal_credentials : Text → Option Credentials

pub record BucketSpec : Type 0 where
  pub name : Text
  pub environment : Text
  pub endpoint : Text
  pub region : Text
  pub bucket_name : Text
  pub access_key : Text
  pub secret_key : Text
  pub force_path_style : Bool

-- [A-Za-z0-9._-]
unfoldable pub bucket_byte : ℕ → Bool
unfolding is_alphanumeric
bucket_byte c = is_alphanumeric c || c == b'.' || c == b'_' || c == b'-'

-- bucketNamePattern, ^[A-Za-z0-9][A-Za-z0-9._-]{1,61}[A-Za-z0-9]$
unfoldable pub valid_bucket_name : Text → Bool
unfolding bucket_byte is_alphanumeric
valid_bucket_name s =
    leb 3 (length s)
    && leb (length s) 63
    && all bucket_byte s
    && all is_alphanumeric (take 1 s)
    && all is_alphanumeric (drop (length s - 1) s)

-- [A-Z0-9_]
unfoldable pub prefix_byte : ℕ → Bool
unfolding is_upper is_digit
prefix_byte c = is_upper c || is_digit c || c == b'_'

-- bucketPrefixPattern, ^[A-Z][A-Z0-9_]{0,31}$
unfoldable pub valid_prefix : Text → Bool
unfolding prefix_byte is_upper
valid_prefix [] = false
valid_prefix (c ∷ s) = is_upper c && all prefix_byte s && leb (length s) 31

-- an HTTP(S) origin without credentials, query or path
unfoldable pub is_origin : Url → Bool
unfolding equals
is_origin u =
    (equals u.scheme (bytes "https") || equals u.scheme (bytes "http"))
    && not (is_empty u.host)
    && not u.has_user
    && is_empty u.query
    && is_empty u.fragment
    && (is_empty u.path || equals u.path (bytes "/"))

-- ValidateBucketCredentials
unfoldable pub validate_credentials : Text → Text → Result (Unit {0})
validate_credentials access secret_key =
    let key = trim is_space access in
    refuse
      (ltb (length key) 3
        || ltb 256 (length key)
        || ltb (length secret_key) 8
        || ltb 1024 (length secret_key)
        || any (λ c. c == 0) (key ++ secret_key))
      invalid_credentials

-- the trimming of BucketSpec.Validate, which changes the spec
unfoldable pub trimmed : BucketSpec → BucketSpec
trimmed s =
    let environment = trim is_space s.environment in
    record s {
      name = trim is_space s.name;
      environment = if is_empty environment then bytes "production" else environment;
      endpoint = trim_right (λ c. c == b'/') (trim is_space s.endpoint);
      region = trim is_space s.region;
      bucket_name = trim is_space s.bucket_name;
      access_key = trim is_space s.access_key;
    }

-- the checks of BucketSpec.Validate on the trimmed spec
unfoldable pub check_spec : Formats → BucketSpec → Result (Unit {0})
check_spec f s = do
  require (valid_name s.name && valid_bucket_name s.bucket_name) invalid_bucket
  u ← or_else (f.parse_url s.endpoint) invalid_endpoint
  require (is_origin u) invalid_endpoint
  refuse (ltb 2048 (length s.endpoint) || ltb 100 (length s.region)) endpoint_too_long
  validate_credentials s.access_key s.secret_key

-- BucketSpec.Validate
unfoldable pub validate_bucket : Formats → BucketSpec → Result BucketSpec
unfolding trimmed
validate_bucket f s = do check_spec f (trimmed s); ok (trimmed s)
