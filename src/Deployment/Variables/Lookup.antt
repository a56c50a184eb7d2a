-- ===== src/Deployment/Variables/Lookup.antt =====
-- deployment/workspace.go: resolveVariable and variables, what a deployment reads.
use cloudrail.Deployment.Variables.Rows.{
  Reference, Workspace, Key, Variable, visited, variable_at, variable_scope, is_reference,
  reference_at,
}
use cloudrail.Common.{List, Option, [], if◌then◌else◌, length, none, some, suc, zero, ℕ, ◌==◌, ◌∷◌}
use cloudrail.Common.Table.{find, select}
use cloudrail.Common.Text.{Text, is_empty}
use cloudrail.Deployment.Outside.{Env, Outside}
use cloudrail.Result.{
  Result, err, no_cipher, no_rows, ok, or_else, out_of_fuel, reference_cycle, refuse, ◌>>=◌, ◌>>◌,
}
use cloudrail.Secrets.{open_sealed}
use cloudrail.Deployment.Variables.Rows.{
  Key, Reference, Variable, Workspace, is_reference, reference_at, variable_at, variable_scope,
  visited,
}

-- what a reference without a row, or to a variable without one, falls back on
abbrev pub or_fallback : Text → Result Text → Result Text
or_fallback fallback (err no_rows) = if is_empty fallback then err no_rows else ok fallback
or_fallback fallback resolved = resolved

abbrev pub follow : Text → Option Reference → (ℕ → Text → Result Text) → Result Text
follow fallback none resolve = or_fallback fallback (err no_rows)
follow fallback (some r) resolve = or_fallback fallback (resolve r.target r.target_variable)

-- Store.resolveVariable, on fuel; `visiting` are the keys of the calls that have not returned
unfoldable pub resolve_variable : Outside → Workspace → ℕ → List Key → ℕ → Text → Result Text
resolve_variable o w zero visiting id name = err out_of_fuel
resolve_variable o w (suc fuel) visiting id name = do
  refuse (visited id name visiting) reference_cycle
  v ← or_else (find (variable_at id name) w.variables) no_rows
  cipher ← or_else o.cipher no_cipher
  fallback ← open_sealed cipher v.ciphertext (variable_scope id name)
  if is_reference v.kind
      then follow fallback (find (reference_at id name) w.references)
          (λ target variable. resolve_variable o w fuel ((id, name) ∷ visiting) target variable)
      else ok fallback

-- no two calls that have not returned are for one row
abbrev pub resolve_fuel : Workspace → ℕ
resolve_fuel w = suc (length w.variables)

-- Store.variables, from the rows that name the variables
unfoldable pub collect : Outside → Workspace → ℕ → List Variable → Result Env
collect o w id [] = ok []
collect o w id (v ∷ vs) =
    let rest = collect o w id vs in
    do
      value ← resolve_variable o w (resolve_fuel w) [] id v.name
      values ← rest
      ok ((v.name, value) ∷ values)

-- Store.variables; the map that it returns has no order
unfoldable pub variables : Outside → Workspace → ℕ → Result Env
unfolding collect
variables o w id = collect o w id (select (λ v. v.service_id == id) w.variables)
