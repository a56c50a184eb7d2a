-- ===== src/Auth/Sessions.antt =====
-- Logging in and out, and the one owner.
use cloudrail.Auth.{
  AuthDb, Crypto, Owner, Session, configured, is_live, login, logout, plain_email, same_address,
  session, setup, with_token,
}
use cloudrail.Common.{
  Bool, List, [], and_left, ap, arith, false, leb, length, ltb, lt→ltb, refl, some, subst, sym,
  true, ℕ, ◌&&◌, ◌++◌, ◌+◌, ◌<◌, ◌||◌, ◌∙◌, ◌∷◌, ◌≡◌, ◌≤◌,
}
use cloudrail.Common.Table.{exists, find}
use cloudrail.Common.Table.Found.{exists-append-none, exists-delete-none, exists-delete-same}
use cloudrail.Common.Table.Writes.{exists-appended}
use cloudrail.Common.Text.{Text, equals, equals_refl, equals_sound}
use cloudrail.Deployment.Claim.{found}
use cloudrail.Deployment.Model.{seconds}
use cloudrail.Result.{
  >>=-eq-ok, bad_credentials, duplicate_key, err, invalid_email, invalid_password, no_rows, ok,
  ok-injective, ok-pair, or_else, or_else-eq-ok, owner_exists, refuse, refuse-eq-ok, require,
  then-eq-ok, unsupported,
}

-- What Login has found where it succeeds, and what it has written.
record IsLoggedIn (o : Crypto) (now : ℕ) (token : Text) (given password : Text) (db : AuthDb)
    (t : Text) (q : AuthDb) : Type 0 where
  pub owner : Owner
  pub owner_found : find (λ w. true) db.owners ≡ some owner
  pub fresh : exists (with_token (o.digest token)) db.sessions ≡ false
  pub same : t ≡ token
  pub written : q ≡ record db {
    sessions =
        db.sessions
        ++ record { token_hash = o.digest token; expires_at = now + seconds 86400 } ∷ [];
  }

login-IsLoggedIn :
    (o : Crypto) (now : ℕ) (token given password : Text) (db : AuthDb) {t : Text} {q : AuthDb}
    → login o now token given password db ≡ ok (t, q)
    → IsLoggedIn o now token given password db t q
unfolding login
login-IsLoggedIn o now token given password db h =
    let (_, h1) = then-eq-ok (refuse (ltb 72 (length password)) bad_credentials) _ h in
    let (w, found, h2) = >>=-eq-ok (or_else (find (λ w. true) db.owners) bad_credentials) _ h1 in
    let (_, h3) =
      then-eq-ok
        (require (o.matches w.password_hash password && equals w.email (plain_email given))
          bad_credentials)
        _ h2 in
    let (fresh, h4) =
      then-eq-ok (refuse (exists (with_token (o.digest token)) db.sessions) duplicate_key) _ h3 in
    let (t, q) = ok-pair h4 in
    record {
      owner = w;
      owner_found = or_else-eq-ok _ _ found;
      fresh = refuse-eq-ok _ _ fresh;
      same = sym t;
      written = sym q;
    }

session-ok :
    (o : Crypto) (now : ℕ) (token : Text) (db : AuthDb) (w : Owner)
    → exists (is_live now (o.digest token)) db.sessions ≡ true
    → find (λ w. true) db.owners ≡ some w
    → session o now (some token) db ≡ ok w.email
unfolding session
session-ok o now token db w live found = rw (live, found) refl

session-refused :
    (o : Crypto) (now : ℕ) (token : Text) (db : AuthDb)
    → exists (is_live now (o.digest token)) db.sessions ≡ false
    → session o now (some token) db ≡ err no_rows
unfolding session
session-refused o now token db dead = rw dead refl

-- The token that Login returns is the owner's session until a day has passed, and is refused from
-- then on.
pub login-session :
    (o : Crypto) (now later : ℕ) (token given password : Text) (db : AuthDb) {t : Text} {q : AuthDb}
    → login o now token given password db ≡ ok (t, q)
    → (later < now + seconds 86400
        → (w : Owner) × (find (λ w. true) db.owners ≡ some w)
          × (session o later (some t) q ≡ ok w.email))
      × (now + seconds 86400 ≤ later → session o later (some t) q ≡ err no_rows)
login-session o now later token given password db {t = t} {q = q} h =
    let s = login-IsLoggedIn o now token given password db h in
    let new : Session = record { token_hash = o.digest token; expires_at = now + seconds 86400 } in
    let rows = ap (λ x. x.sessions) s.written in
    let held =
      λ (b : Bool). subst (λ x. exists (is_live later (o.digest x)) q.sessions ≡ b) (sym s.same) in
    (
      λ l. (
        s.owner,
        s.owner_found,
        session-ok o later t q s.owner
            (held true
              (ap (exists (is_live later (o.digest token))) rows ∙ live_new db.sessions new l))
            (ap (λ x. find (λ w. true) x.owners) s.written ∙ s.owner_found),
      ),
      λ l. session-refused o later t q (
          held false (
            ap (exists (is_live later (o.digest token))) rows
            ∙ dead_all db.sessions new l s.fresh)),
    )
  where
    live_new :
        (xs : List Session) (new : Session)
        → later < new.expires_at
        → exists (is_live later new.token_hash) (xs ++ new ∷ []) ≡ true
    live_new xs new l =
        exists-appended (is_live later new.token_hash) xs new
          (rw (equals_refl new.token_hash) (lt→ltb later new.expires_at l))

    dead_all :
        (xs : List Session) (new : Session)
        → new.expires_at ≤ later
        → exists (with_token new.token_hash) xs ≡ false
        → exists (is_live later new.token_hash) (xs ++ new ∷ []) ≡ false
    dead_all xs new l f =
        exists-append-none (is_live later new.token_hash) (with_token new.token_hash) xs new
          (λ x e. and_left _ _ e) f (rw (equals_refl new.token_hash) (ground arith))

module _ where
  -- After Logout the token is refused, whenever and whoever asks, and every other session is as it
  -- was.
  pub logout-session :
      (o : Crypto) (now : ℕ) (token other : Text) (db : AuthDb)
      → (session o now (some token) (logout o (some token) db) ≡ err no_rows)
        × (equals (o.digest other) (o.digest token) ≡ false
            → session o now (some other) (logout o (some token) db) ≡ session o now (some other) db)
  unfolding logout session
  logout-session o now token other db = (
    session-refused o now token (logout o (some token) db) (
        exists-delete-none (is_live now (o.digest token)) (with_token (o.digest token)) db.sessions
          (λ s h. and_left _ _ h)),
    λ apart.
        rw
          (exists-delete-same (is_live now (o.digest other)) (with_token (o.digest token))
            db.sessions (λ s h. distinct s apart h))
          refl,
  )
    where
      distinct :
          (s : Session)
          → equals (o.digest other) (o.digest token) ≡ false
          → is_live now (o.digest other) s ≡ true
          → with_token (o.digest token) s ≡ false
      distinct s apart h =
          subst (λ x. equals x (o.digest token) ≡ false)
            (sym (equals_sound s.token_hash (o.digest other) (and_left _ _ h))) apart

no_owner : (ws : List Owner) → exists (λ w. true) ws ≡ false → ws ≡ []
unfolding exists
no_owner [] h = refl
no_owner (w ∷ ws) h = absurd (cc)

setup-refused :
    (o : Crypto) (salt given password : Text) (db : AuthDb) (r : AuthDb)
    → configured db ≡ true
    → ¬ (setup o salt given password db ≡ ok r)
unfolding setup
setup-refused o salt given password db r there h =
    let email = plain_email given in
    let (_, h1) =
      then-eq-ok
        (require (same_address (o.parse_address email) email && leb (length email) 254)
          invalid_email)
        _ h in
    let (_, h2) =
      then-eq-ok (refuse (ltb (length password) 12 || ltb 72 (length password)) invalid_password) _
        h1 in
    let (_, _, h3) = >>=-eq-ok (or_else (o.hash_password salt password) unsupported) _ h2 in
    let (free, _) = then-eq-ok (refuse (configured db) owner_exists) _ h3 in
    cc (there, refuse-eq-ok _ _ free)

-- Setup succeeds while there is no owner, and from then on every further Setup is refused, whatever
-- it is given.
pub setup-once :
    (o : Crypto) (salt given password : Text) (db : AuthDb) {q : AuthDb}
    → setup o salt given password db ≡ ok q
    → (db.owners ≡ [])
      × ((salt_two given_two password_two : Text) (r : AuthDb)
          → ¬ (setup o salt_two given_two password_two q ≡ ok r))
unfolding setup configured
setup-once o salt given password db {q = q} h =
    let email = plain_email given in
    let (_, h1) =
      then-eq-ok
        (require (same_address (o.parse_address email) email && leb (length email) 254)
          invalid_email)
        _ h in
    let (_, h2) =
      then-eq-ok (refuse (ltb (length password) 12 || ltb 72 (length password)) invalid_password) _
        h1 in
    let (hash, _, h3) = >>=-eq-ok (or_else (o.hash_password salt password) unsupported) _ h2 in
    let (free, h4) = then-eq-ok (refuse (configured db) owner_exists) _ h3 in
    let there : configured q ≡ true =
      ap (λ x. exists (λ w. true) x.owners) (sym (ok-injective h4))
      ∙ exists-appended (λ w. true) db.owners (record { email = email; password_hash = hash })
          refl in
    (no_owner db.owners (refuse-eq-ok _ _ free), λ s g p r. setup-refused o s g p q r there)
