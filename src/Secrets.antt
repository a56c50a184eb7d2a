-- ===== src/Secrets.antt =====
-- internal/secrets/cipher.go: sealed values. AES-GCM stands as a parameter; the program's own part is
-- the nonce that it keeps in front of each sealed value.
pub mod RoundTrip
use cloudrail.Common.{ℕ, Bool, Option, none, some, ◌++◌, if◌then◌else◌, ltb, length, take, drop}
use cloudrail.Common.Text.{Text}
use cloudrail.Result.{Result, ok, err, or_else, decrypt_failed}

-- cipher.AEAD: the nonce, the value or its ciphertext, and the additional data
pub record Aead : Type 0 where
  pub nonce_size : ℕ
  pub encrypt : Text → Text → Text → Text
  pub decrypt : Text → Text → Text → Option Text

-- Cipher.Seal; the nonce is what rand.Read returned
unfoldable pub seal : Aead → Text → Text → Text → Text
seal c nonce value scope = nonce ++ c.encrypt nonce value scope

-- Cipher.Open
unfoldable pub open_sealed : Aead → Text → Text → Result Text
open_sealed c b scope =
    if ltb (length b) c.nonce_size
    then err decrypt_failed
    else or_else (c.decrypt (take c.nonce_size b) (drop c.nonce_size b) scope) decrypt_failed
