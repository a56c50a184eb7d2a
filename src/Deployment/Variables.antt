-- ===== src/Deployment/Variables.antt =====
-- deployment/workspace.go: the variables of a service, references to those of another one, and what
-- a deployment reads of them. A text of a kind that SetVariableTyped refuses stands as `reference`.
-- A nonce of the cipher is an argument of the operation that seals with it.
pub mod Keys
pub mod Cycles
pub mod Resolving
pub mod Wholeness
pub mod Setting
pub mod Reading
pub mod Renaming
pub mod Referring
mod Rows
mod Lookup
use text.Mathlib.Text.{◌==◌ as str_eq}
use cloudrail.Common.{
  Bool, List, Option, [], all, any, false, if◌then◌else◌, leb, length, ltb, none, not, some, suc,
  true, zero, ℕ, ◌&&◌, ◌++◌, ◌==◌, ◌||◌, ◌∷◌,
}
use cloudrail.Common.Table.{count, delete, exists, find, select, update}
use cloudrail.Common.Table.Writes.{upsert}
use cloudrail.Common.Text.{Text, bytes, equals, is_alphanumeric, is_digit, is_empty}
use cloudrail.Deployment.Model.{Db, is_data_kind}
use cloudrail.Deployment.Outside.{Env, Outside, id_text}
use cloudrail.Deployment.Settings.{is_http, normalize}
use cloudrail.Deployment.Volumes.{service_with}
use cloudrail.Result.{
  Result, bucket_variable, different_scope, err, invalid_reference, invalid_variable,
  managed_variable, name_taken, no_cipher, no_rows, ok, or_else, out_of_fuel, reference_cycle,
  refuse, require, target_missing, too_many_variables, variable_referenced, ◌>>=◌, ◌>>◌,
}
use cloudrail.Secrets.{open_sealed, seal}
unfoldable pub use Rows.*
unfoldable pub use Lookup.*

-- [A-Za-z0-9_]
unfoldable pub variable_byte : ℕ → Bool
unfolding is_alphanumeric
variable_byte c = is_alphanumeric c || c == b'_'

-- variableName, ^[A-Za-z_][A-Za-z0-9_]{0,127}$
unfoldable pub valid_variable_name : Text → Bool
unfolding variable_byte
valid_variable_name [] = false
valid_variable_name (c ∷ s) =
    variable_byte c && not (is_digit c) && all variable_byte s && leb (length s) 127

abbrev pub managed_suffixes : List Text
managed_suffixes =
    bytes "_BUCKET"
    ∷ bytes "_ENDPOINT"
    ∷ bytes "_REGION"
    ∷ bytes "_ACCESS_KEY_ID"
    ∷ bytes "_SECRET_ACCESS_KEY"
    ∷ bytes "_FORCE_PATH_STYLE"
    ∷ []

-- bucketManagedVariable
unfoldable pub bucket_managed : ℕ → Text → Workspace → Bool
bucket_managed id name w =
    exists
      (λ b. b.service_id == id && any (λ suffix. equals name (b.prefix ++ suffix)) managed_suffixes)
      w.bindings

-- WHERE service_id=$1 AND name<>$2
abbrev pub other_variable : ℕ → Text → Variable → Bool
other_variable id name v = v.service_id == id && not (equals v.name name)

abbrev pub stored : Text → VariableKind → Variable → Variable
stored ciphertext kind v = record v { ciphertext = ciphertext; kind = kind }

-- the upsert of a variable
unfoldable pub put_variable : ℕ → Text → Text → VariableKind → List Variable → List Variable
put_variable id name ciphertext kind vs =
    upsert (variable_at id name) (stored ciphertext kind)
      (record { service_id = id; name = name; ciphertext = ciphertext; kind = kind }) vs

-- `s.Settings` and the check that follows it
unfoldable pub check_own : ℕ → Workspace → Result (Unit {0})
check_own id w = do
  s ← or_else (find (service_with id) w.main.services) no_rows
  refuse (is_data_kind (normalize (id_text id) s).settings.kind) managed_variable

-- SetVariableTyped; SetVariable is the kind `secret`
unfoldable pub set_variable :
    Outside → Text → ℕ → Text → Text → VariableKind → Workspace → Result Workspace
set_variable o nonce id name value kind w = do
  check_own id w
  refuse (not (valid_variable_name name) || ltb 8192 (length value) || is_reference kind)
      invalid_variable
  refuse (bucket_managed id name w) bucket_variable
  cipher ← or_else o.cipher no_cipher
  refuse (leb 64 (count (other_variable id name) w.variables)) too_many_variables
  ok (record w {
    variables =
        put_variable id name (seal cipher nonce value (variable_scope id name)) kind w.variables;
    references = delete (reference_at id name) w.references;
  })

-- reached by the recursive query, and leads on to a service that is not
abbrev pub frontier : List ℕ → Reference → Bool
frontier seen r = any (λ s. s == r.source) seen && not (any (λ s. s == r.target) seen)

-- the recursive term: a row is added until there is no new one
unfoldable pub closure : ℕ → List Reference → List ℕ → List ℕ
closure zero rs seen = seen
closure (suc fuel) rs seen = elim (find (frontier seen) rs) [
  | none ↦ seen
  | some r ↦ closure fuel rs (r.target ∷ seen)
]

-- target_service_id FROM service_references WHERE source_service_id=$1
unfoldable pub targets_of : ℕ → List Reference → List ℕ
targets_of id [] = []
targets_of id (r ∷ rs) =
    let rest = targets_of id rs in if r.source == id then r.target ∷ rest else rest

-- WITH RECURSIVE reachable; each row of the table adds one service at most
unfoldable pub reachable : ℕ → List Reference → List ℕ
unfolding closure targets_of
reachable id rs = closure (suc (length rs)) rs (targets_of id rs)

-- services of one project and environment, the first an application
unfoldable pub same_scope : ℕ → ℕ → Db → Bool
same_scope source target db =
    exists
      (λ s.
        s.id == source
        && is_http s.settings.kind
        && exists
            (λ t. t.id == target && t.project == s.project && str_eq t.environment s.environment)
            db.services)
      db.services

abbrev pub pointed : ℕ → Text → Reference → Reference
pointed target variable r = record r { target = target; target_variable = variable }

-- the upsert of a reference
unfoldable pub put_reference : ℕ → Text → ℕ → Text → List Reference → List Reference
put_reference source name target variable rs =
    upsert (reference_at source name) (pointed target variable)
      (record {
        source = source;
        variable_name = name;
        target = target;
        target_variable = variable;
      })
      rs

-- the checks of SetReference inside its transaction
unfoldable pub check_reference : ℕ → Text → ℕ → Text → Workspace → Result (Unit {0})
check_reference source name target variable w = do
  require (same_scope source target w.main) different_scope
  require (exists (variable_at target variable) w.variables) target_missing
  refuse (any (λ s. s == source) (reachable target w.references)) reference_cycle
  refuse (leb 64 (count (other_variable source name) w.variables)) too_many_variables

-- SetReference
unfoldable pub set_reference : Outside → Text → ℕ → Text → ℕ → Text → Workspace → Result Workspace
set_reference o nonce source name target variable w = do
  refuse (not (valid_variable_name name) || not (valid_variable_name variable) || source == target)
      invalid_reference
  refuse (bucket_managed source name w) bucket_variable
  cipher ← or_else o.cipher no_cipher
  check_reference source name target variable w
  ok (record w {
    variables =
        put_variable source name (seal cipher nonce [] (variable_scope source name)) reference
          w.variables;
    references = put_reference source name target variable w.references;
  })

abbrev pub named : Text → Text → Variable → Variable
named name ciphertext v = record v { name = name; ciphertext = ciphertext }

abbrev pub sourced : Text → Reference → Reference
sourced name r = record r { variable_name = name }

abbrev pub retargeted : Text → Reference → Reference
retargeted name r = record r { target_variable = name }

-- the three updates of RenameVariable
unfoldable pub move_variable : ℕ → Text → Text → Text → Workspace → Workspace
move_variable id old new ciphertext w = record w {
  variables = update (variable_at id old) (named new ciphertext) w.variables;
  references =
      update (reference_to id old) (retargeted new)
        (update (reference_at id old) (sourced new) w.references);
}

-- RenameVariable
unfoldable pub rename_variable : Outside → Text → ℕ → Text → Text → Workspace → Result Workspace
rename_variable o nonce id old new w = do
  refuse (not (valid_variable_name old) || not (valid_variable_name new) || equals old new)
      invalid_variable
  check_own id w
  cipher ← or_else o.cipher no_cipher
  refuse (bucket_managed id old w || bucket_managed id new w) bucket_variable
  v ← or_else (find (variable_at id old) w.variables) no_rows
  refuse (exists (variable_at id new) w.variables) name_taken
  value ← open_sealed cipher v.ciphertext (variable_scope id old)
  ok (move_variable id old new (seal cipher nonce value (variable_scope id new)) w)

-- DeleteVariable
unfoldable pub delete_variable : ℕ → Text → Workspace → Result Workspace
delete_variable id name w = do
  refuse (bucket_managed id name w) bucket_variable
  refuse (exists (reference_to id name) w.references) variable_referenced
  ok (record w {
    variables = delete (variable_at id name) w.variables;
    references = delete (reference_at id name) w.references;
  })
