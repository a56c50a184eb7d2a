-- ===== src/Deployment/Outside.antt =====
-- What the store's operations take from outside: the cipher, the standard library's encoders, and
-- the request that a caller makes.
use cloudrail.Common.{ℕ, zero, suc, ◌+◌, ◌/◌, ◌%◌, Option, List, [], ◌∷◌, ◌++◌, if◌then◌else◌, ltb}
use cloudrail.Common.Text.{Text, bytes, is_empty}
use cloudrail.Result.{Result, ok, or_else, ◌>>=◌, no_cipher, decrypt_failed}
use cloudrail.Secrets.{Aead, open_sealed}
use cloudrail.Deployment.Model.{Spec, Deployment}

-- a map[string]string, as the list of its entries
abbrev pub Env : Type 0
Env = List (Text × Text)

pub record Outside : Type 0 where
  -- Store.Cipher, nil where no key is configured
  pub cipher : Option Aead
  -- json.Marshal and json.Unmarshal of an environment
  pub marshal : Env → Text
  pub unmarshal : Text → Option Env
  -- hex of the SHA-256 of the marshalled request: the spec, and the start command of a build
  pub request_hash : Spec → Option Text → Text

abbrev hex_digit : ℕ → ℕ
hex_digit d = if ltb d 10 then d + 48 else d + 87

unfoldable pub hex_digits : ℕ → ℕ → Text → Text
hex_digits zero n out = out
hex_digits (suc k) n out = hex_digits k (n / 16) (hex_digit (n % 16) ∷ out)

-- the text of an identifier: hex.EncodeToString of its twelve bytes
unfoldable pub id_text : ℕ → Text
unfolding hex_digits
id_text n = hex_digits 24 n []

unfoldable pub deployment_scope : ℕ → Text
unfolding id_text
deployment_scope id = bytes "deployment:" ++ id_text id

-- Store.deploymentEnv, on the row of the deployment
unfoldable pub deployment_env : Outside → Deployment → Result Env
deployment_env o d = if is_empty d.encrypted_env then ok [] else do
  cipher ← or_else o.cipher no_cipher
  plain ← open_sealed cipher d.encrypted_env (deployment_scope d.id)
  or_else (o.unmarshal plain) decrypt_failed
