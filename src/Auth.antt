-- ===== src/Auth.antt =====
-- auth/auth.go: the owner, sessions, and the limit on attempts to log in. bcrypt, SHA-256 and the
-- parsers of addresses are parameters. Setting the cookie is left out.
pub mod Sessions
pub mod Limits
pub mod Tests
use cloudrail.Common.{
  Bool, List, Option, [], false, if◌then◌else◌, leb, length, ltb, map, none, not, some, suc, true,
  ℕ, ◌&&◌, ◌++◌, ◌+◌, ◌^◌, ◌||◌, ◌∷◌,
}
use cloudrail.Common.Table.{delete, exists, find, update}
use cloudrail.Common.Text.{Text, bytes, equals, is_empty, is_space, to_lower, trim}
use cloudrail.Deployment.Model.{seconds}
use cloudrail.Result.{
  Result, bad_credentials, duplicate_key, invalid_email, invalid_password, no_rows, ok, or_else,
  owner_exists, refuse, require, unsupported, ◌>>=◌, ◌>>◌,
}

pub record Crypto : Type 0 where
  -- bcrypt.GenerateFromPassword at cost 12, with its salt, and CompareHashAndPassword
  pub hash_password : Text → Text → Option Text
  pub matches : Text → Text → Bool
  -- hashToken
  pub digest : Text → Text
  -- the Address of mail.ParseAddress
  pub parse_address : Text → Option Text
  -- scheme and host of url.Parse
  pub parse_origin : Text → Option (Text × Text)

pub record Owner : Type 0 where
  pub email : Text
  pub password_hash : Text

pub record Session : Type 0 where
  pub token_hash : Text
  pub expires_at : ℕ

-- auth_attempts
pub record Attempts : Type 0 where
  pub key : Text
  pub window_start : ℕ
  pub attempts : ℕ

pub record AuthDb : Type 0 where
  pub owners : List Owner
  pub sessions : List Session
  pub attempts : List Attempts

-- Configured
unfoldable pub configured : AuthDb → Bool
configured db = exists (λ w. true) db.owners

-- strings.ToLower(strings.TrimSpace(email)), on ASCII bytes
unfoldable pub plain_email : Text → Text
unfolding to_lower
plain_email given = map to_lower (trim is_space given)

abbrev same_address : Option Text → Text → Bool
same_address none email = false
same_address (some address) email = equals address email

-- Setup; the table holds one row at most, whose key is `true`
unfoldable pub setup : Crypto → Text → Text → Text → AuthDb → Result AuthDb
unfolding plain_email
setup o salt given password db =
    let email = plain_email given in
    do
      require (same_address (o.parse_address email) email && leb (length email) 254) invalid_email
      refuse (ltb (length password) 12 || ltb 72 (length password)) invalid_password
      hash ← or_else (o.hash_password salt password) unsupported
      refuse (configured db) owner_exists
      ok (record db { owners = db.owners ++ record { email = email; password_hash = hash } ∷ [] })

abbrev pub with_token : Text → Session → Bool
with_token hash s = equals s.token_hash hash

-- Login; `token` is the text of 32 random bytes. Without an owner the password is compared with a
-- fixed hash, and the answer is the same.
unfoldable pub login : Crypto → ℕ → Text → Text → Text → AuthDb → Result (Text × AuthDb)
unfolding plain_email
login o now token given password db = do
  refuse (ltb 72 (length password)) bad_credentials
  w ← or_else (find (λ w. true) db.owners) bad_credentials
  require (o.matches w.password_hash password && equals w.email (plain_email given)) bad_credentials
  refuse (exists (with_token (o.digest token)) db.sessions) duplicate_key
  ok (
    token,
    record db {
      sessions =
          db.sessions
          ++ record { token_hash = o.digest token; expires_at = now + seconds 86400 } ∷ [];
    },
  )

-- token_hash=$1 AND expires_at>now()
abbrev pub is_live : ℕ → Text → Session → Bool
is_live now hash s = equals s.token_hash hash && ltb now s.expires_at

-- Session, from the value of the cookie
unfoldable pub session : Crypto → ℕ → Option Text → AuthDb → Result Text
session o now cookie db = do
  token ← or_else cookie bad_credentials
  require (exists (is_live now (o.digest token)) db.sessions) no_rows
  w ← or_else (find (λ w. true) db.owners) no_rows
  ok w.email

-- Logout
unfoldable pub logout : Crypto → Option Text → AuthDb → AuthDb
logout o none db = db
logout o (some token) db = record db { sessions = delete (with_token (o.digest token)) db.sessions }

abbrev pub of_key : Text → Attempts → Bool
of_key key a = equals a.key key

-- the window of a quarter of an hour is over
abbrev pub is_over : ℕ → Attempts → Bool
is_over now a = ltb (a.window_start + seconds 900) now

-- the row of the conflict, or none where its counter of 32 bits is full
unfoldable pub counted : ℕ → Attempts → Option Attempts
counted now a =
    if is_over now a
    then some (record a { window_start = now; attempts = 1 })
    else if ltb (suc a.attempts) (2 ^ 31)
    then some (record a { attempts = suc a.attempts })
    else none

abbrev pub put_attempts : Attempts → Attempts → Attempts
put_attempts b a = record a { window_start = b.window_start; attempts = b.attempts }

abbrev pub write_attempts : Text → Option Attempts → AuthDb → Bool × AuthDb
write_attempts key none db = (false, db)
write_attempts key (some b) db =
    (leb b.attempts 20, record db { attempts = update (of_key key) (put_attempts b) db.attempts })

-- the upsert of AllowAttempt, from the row of the key
unfoldable pub attempt_on : Text → ℕ → Option Attempts → AuthDb → Bool × AuthDb
attempt_on key now none db = (
  true,
  record db {
    attempts = db.attempts ++ record { key = key; window_start = now; attempts = 1 } ∷ [];
  },
)
attempt_on key now (some a) db = write_attempts key (counted now a) db

-- AllowAttempt, from the address of the caller
unfoldable pub allow_attempt : Crypto → ℕ → Text → AuthDb → Bool × AuthDb
allow_attempt o now address db =
    attempt_on (o.digest address) now (find (of_key (o.digest address)) db.attempts) db

-- the parts of a request that SameOrigin reads; a header that is absent is empty
pub record WebRequest : Type 0 where
  pub method : Text
  pub marker : Text
  pub origin : Text
  pub host : Text

abbrev trusted : Text → Option (Text × Text) → Bool
trusted host none = false
trusted host (some (scheme, origin)) =
    equals origin host && (equals scheme (bytes "http") || equals scheme (bytes "https"))

-- SameOrigin
unfoldable pub same_origin : Crypto → WebRequest → Bool
unfolding equals
same_origin o r =
    if equals r.method (bytes "GET") || equals r.method (bytes "HEAD")
    then true
    else if not (equals r.marker (bytes "1"))
    then false
    else is_empty r.origin || trusted r.host (o.parse_origin r.origin)

-- Cleanup
unfoldable pub cleanup : ℕ → AuthDb → AuthDb
cleanup now db = record db {
  sessions = delete (λ s. ltb s.expires_at now) db.sessions;
  attempts = delete (λ a. ltb (a.window_start + seconds 86400) now) db.attempts;
}
