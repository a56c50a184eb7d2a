-- ===== src/Result.antt =====
-- What a Go function that may fail returns, with the errors that the program tells apart. Each
-- constructor of `Error` names one `errors.New` message, one error value or one refusal of a
-- statement by the database; `Tx` is a function that runs inside a transaction.
use cloudrail.Common.{Bool, true, false, Option, none, some, ◌≡◌, refl, ap}

pub data Error : Type 0 where
  no_rows : Error
  conflict : Error
  cron_schedule : Error
  duplicate_key : Error
  check_violation : Error
  null_column : Error
  invalid_name : Error
  invalid_environment : Error
  invalid_workload : Error
  invalid_source : Error
  invalid_image : Error
  invalid_port : Error
  invalid_health_path : Error
  invalid_kind : Error
  invalid_resources : Error
  invalid_mount : Error
  system_mount : Error
  invalid_command : Error
  timeout_without_command : Error
  invalid_timeout : Error
  invalid_restart_policy : Error
  invalid_retries : Error
  retries_required : Error
  invalid_target_port : Error
  not_web_service : Error
  volume_fixed : Error
  unknown_template : Error
  template_pinned : Error
  action_running : Error
  queue_full : Error
  no_cipher : Error
  decrypt_failed : Error
  invalid_status : Error
  already_finished : Error
  invalid_action : Error
  never_deployed : Error
  volume_changed : Error
  backup_not_allowed : Error
  backup_missing : Error
  unfinished_work : Error
  no_next_run : Error
  invalid_schedule : Error
  reference_cycle : Error
  invalid_reference : Error
  managed_variable : Error
  bucket_variable : Error
  invalid_variable : Error
  too_many_variables : Error
  different_scope : Error
  target_missing : Error
  name_taken : Error
  variable_referenced : Error
  managed_volume : Error
  already_attached : Error
  not_stopped : Error
  has_volume : Error
  invalid_repository : Error
  invalid_branch : Error
  unsafe_path : Error
  invalid_builder : Error
  invalid_build : Error
  report_too_large : Error
  context_done : Error
  unsupported : Error
  out_of_fuel : Error
  invalid_bucket : Error
  invalid_endpoint : Error
  endpoint_too_long : Error
  invalid_credentials : Error
  invalid_prefix : Error
  prefix_fixed : Error
  prefix_taken : Error
  names_taken : Error
  invalid_email : Error
  invalid_password : Error
  owner_exists : Error
  bad_credentials : Error
  invalid_variable_name : Error
  no_credentials : Error
  invalid_layout : Error
  disk_failed : Error
  invalid_host : Error
  reserved_host : Error

pub data Result {κ} (R : Type κ) : Type κ where
  err : Error → Result R
  ok : R → Result R

-- the row of a query, or the error of an empty one
abbrev pub or_else {ℓ} : {A : Type ℓ} → Option A → Error → Result A
or_else none e = err e
or_else (some a) e = ok a

-- `if !b { return e }`
abbrev pub require : Bool → Error → Result (Unit {0})
require false refusal = err refusal
require true _ = ok tt

-- `if b { return e }`
abbrev pub refuse : Bool → Error → Result (Unit {0})
refuse false _ = ok tt
refuse true refusal = err refusal

infixl 5 ◌>>=◌
-- the next statement of a function, where this one returned no error
abbrev pub ◌>>=◌ {κ μ} : {R : Type κ} {S : Type μ} → Result R → (R → Result S) → Result S
err stopped >>= next = err stopped
ok result >>= next = next result

infixl 5 ◌>>◌
abbrev pub ◌>>◌ {μ} : {S : Type μ} → Result (Unit {0}) → Result S → Result S
checked >> rest = checked >>= λ _. rest

pub >>=-eq-ok {κ μ} :
    {R : Type κ} {S : Type μ} (m : Result R) (next : R → Result S) {s : S}
    → (m >>= next) ≡ ok s
    → (r : R) × (m ≡ ok r) × (next r ≡ ok s)
>>=-eq-ok (err stopped) next h = absurd (cc)
>>=-eq-ok (ok result) next h = (result, refl, h)

pub require-eq-ok : (b : Bool) (e : Error) {u : Unit {0}} → require b e ≡ ok u → b ≡ true
require-eq-ok true e h = refl
require-eq-ok false e h = cc

pub refuse-eq-ok : (b : Bool) (e : Error) {u : Unit {0}} → refuse b e ≡ ok u → b ≡ false
refuse-eq-ok true e h = cc
refuse-eq-ok false e h = refl

pub or_else-eq-ok {ℓ} :
    {A : Type ℓ} (o : Option A) (e : Error) {a : A} → or_else o e ≡ ok a → o ≡ some a
or_else-eq-ok none e h = cc
or_else-eq-ok (some a) e h = cc

pub then-eq-ok {ℓ} :
    {B : Type ℓ} (m : Result (Unit {0})) (k : Result B) {b : B}
    → (m >> k) ≡ ok b
    → (m ≡ ok tt) × (k ≡ ok b)
then-eq-ok (ok u) k h = (refl, h)
then-eq-ok (err e) k h = absurd (cc)

pub ok-injective {ℓ} : {A : Type ℓ} {a b : A} → ok a ≡ ok b → a ≡ b
ok-injective h = cc

pub ok-pair {ℓ κ} :
    {A : Type ℓ} {B : Type κ} {a c : A} {b d : B}
    → ◌≡◌ {A = Result (A × B)} (ok (a, b)) (ok (c, d))
    → (a ≡ c) × (b ≡ d)
ok-pair h = let e = ok-injective h in (ap (λ p. p.0) e, ap (λ p. p.1) e)

-- Where the first statement did not fail with an error, the second one did.
pub >>=-not-err {κ μ} :
    {R : Type κ} {S : Type μ} (m : Result R) (next : R → Result S) (e : Error)
    → (m ≡ err e → ⊥)
    → ((r : R) → m ≡ ok r → next r ≡ err e → ⊥)
    → (m >>= next) ≡ err e
    → ⊥
>>=-not-err (err stopped) next e h k q = h (cc)
>>=-not-err (ok result) next e h k q = k result refl q

-- The statements after one that returned no error.
pub >>=-ok {κ μ} :
    {R : Type κ} {S : Type μ} (m : Result R) (next : R → Result S) {r : R}
    → m ≡ ok r
    → (m >>= next) ≡ next r
>>=-ok m next h = ap (λ x. x >>= next) h
