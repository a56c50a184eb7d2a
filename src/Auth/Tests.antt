-- ===== src/Auth/Tests.antt =====
-- The theorems on sessions and on the limit of attempts at concrete calls.
use cloudrail.Auth.{
  AuthDb, Crypto, Owner, configured, login, logout, of_key, plain_email, session, setup,
}
use cloudrail.Auth.Limits.{Attempt, Within, let_through, let_through-bounded}
use cloudrail.Auth.Sessions.{login-session, logout-session, setup-once}
use cloudrail.Common.{List, [], arith, false, none, refl, some, true, ◌+◌, ◌<◌, ◌∷◌, ◌≡◌, ◌≤◌}
use cloudrail.Common.Table.{exists, find}
use cloudrail.Common.Text.{Text, bytes, equals, is_space, to_lower, trim, trim_left}
use cloudrail.Deployment.Model.{seconds}
use cloudrail.Result.{err, no_rows, ok}

abbrev crypto : Crypto
crypto = record {
  hash_password = λ salt p. some p;
  matches = λ hash p. true;
  digest = λ t. t;
  parse_address = λ t. some t;
  parse_origin = λ t. none;
}

abbrev nobody : AuthDb
nobody = record { owners = []; sessions = []; attempts = [] }

abbrev owner_one : Owner
owner_one = record { email = bytes "a@b.c"; password_hash = bytes "long password" }

abbrev owned : AuthDb
owned = record nobody { owners = owner_one ∷ [] }

abbrev logged_in : AuthDb
logged_in = record owned {
  sessions = record { token_hash = bytes "t"; expires_at = 100 + seconds 86400 } ∷ [];
}

setup_accepted : setup crypto (bytes "s") (bytes " A@b.c") (bytes "long password") nobody ≡ ok owned
unfolding setup plain_email to_lower trim trim_left is_space equals configured exists
setup_accepted = refl

setup-once_example :
    (nobody.owners ≡ [])
    × ((salt given password : Text) (r : AuthDb)
        → ¬ (setup crypto salt given password owned ≡ ok r))
setup-once_example =
    setup-once crypto (bytes "s") (bytes " A@b.c") (bytes "long password") nobody setup_accepted

login_accepted :
    login crypto 100 (bytes "t") (bytes "a@b.c") (bytes "long password") owned
    ≡ ok (bytes "t", logged_in)
unfolding login plain_email to_lower trim trim_left is_space equals find exists
login_accepted = refl

login-session_example :
    (200 < 100 + seconds 86400
      → (w : Owner) × (find (λ w. true) owned.owners ≡ some w)
        × (session crypto 200 (some (bytes "t")) logged_in ≡ ok w.email))
    × (100 + seconds 86400 ≤ 200 → session crypto 200 (some (bytes "t")) logged_in ≡ err no_rows)
login-session_example =
    login-session crypto 100 200 (bytes "t") (bytes "a@b.c") (bytes "long password") owned
      login_accepted

logout-session_example :
    (session crypto 200 (some (bytes "t")) (logout crypto (some (bytes "t")) logged_in)
      ≡ err no_rows)
    × (equals (bytes "u") (bytes "t") ≡ false
        → session crypto 200 (some (bytes "u")) (logout crypto (some (bytes "t")) logged_in)
          ≡ session crypto 200 (some (bytes "u")) logged_in)
logout-session_example = logout-session crypto 200 (bytes "t") (bytes "u") logged_in

abbrev tries : List Attempt
tries = (10, bytes "ip") ∷ (20, bytes "other") ∷ (30, bytes "ip") ∷ []

tries-Within : Within 10 tries
tries-Within =
    ((omega arith, omega arith), ((omega arith, omega arith), ((omega arith, omega arith), tt)))

let_through-bounded_example :
    (let_through crypto (bytes "ip") tries nobody ≤ 40)
    × (find (of_key (bytes "ip")) nobody.attempts ≡ none
        → let_through crypto (bytes "ip") tries nobody ≤ 20)
let_through-bounded_example = let_through-bounded crypto (bytes "ip") 10 tries nobody tries-Within
