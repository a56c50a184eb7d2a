-- ===== src/Deployment/Variables/Reading.antt =====
-- A variable that is set is read back.
use cloudrail.Common.{
  List, [], ap, false, length, none, of_some_eq, refl, some, suc, sym, true, ℕ, ◌∙◌, ◌∷◌, ◌≡◌,
}
use cloudrail.Common.Table.{find}
use cloudrail.Common.Table.Found.{find-upserted}
use cloudrail.Common.Text.{Text}
use cloudrail.Deployment.Claim.{found}
use cloudrail.Deployment.Outside.{Outside}
use cloudrail.Deployment.Variables.{
  Key, Reference, Variable, VariableKind, Workspace, follow, is_reference, or_fallback,
  put_variable, reference_at, resolve_fuel, resolve_variable, set_variable, stored, variable_at,
  variable_scope, visited,
}
use cloudrail.Deployment.Variables.Keys.{same_key_refl}
use cloudrail.Deployment.Variables.Setting.{set_variable-IsAssigned}
use cloudrail.Result.{>>=-ok, err, no_cipher, no_rows, ok, or_else, reference_cycle, refuse}
use cloudrail.Secrets.{Aead, open_sealed, seal}
use cloudrail.Secrets.RoundTrip.{open-seal}

-- Reading a variable that is no reference opens its row.
pub read_row :
    (o : Outside) (c : Aead) (w : Workspace) (fuel : ℕ) (visiting : List Key) (id : ℕ) (name : Text)
    (v : Variable) {value : Text}
    → o.cipher ≡ some c
    → visited id name visiting ≡ false
    → find (variable_at id name) w.variables ≡ some v
    → is_reference v.kind ≡ false
    → open_sealed c v.ciphertext (variable_scope id name) ≡ ok value
    → resolve_variable o w (suc fuel) visiting id name ≡ ok value
unfolding resolve_variable
read_row o c w fuel visiting id name v configured free found own opened =
    >>=-ok _ _ (ap (λ b. refuse b reference_cycle) free)
    ∙ (>>=-ok _ _ (ap (λ r. or_else r no_rows) found)
        ∙ (>>=-ok _ _ (ap (λ k. or_else k no_cipher) configured)
            ∙ (>>=-ok _ _ opened ∙ rw own refl)))

pub read_missing :
    (o : Outside) (w : Workspace) (fuel : ℕ) (visiting : List Key) (id : ℕ) (name : Text)
    → visited id name visiting ≡ false
    → find (variable_at id name) w.variables ≡ none
    → resolve_variable o w (suc fuel) visiting id name ≡ err no_rows
unfolding resolve_variable
read_missing o w fuel visiting id name free missing = rw (free, missing) refl

-- Reading a reference without a fallback whose target is missing.
pub read_dangling :
    (o : Outside) (c : Aead) (w : Workspace) (fuel : ℕ) (visiting : List Key) (id : ℕ) (name : Text)
    (v : Variable) (r : Reference)
    → o.cipher ≡ some c
    → visited id name visiting ≡ false
    → find (variable_at id name) w.variables ≡ some v
    → is_reference v.kind ≡ true
    → open_sealed c v.ciphertext (variable_scope id name) ≡ ok []
    → find (reference_at id name) w.references ≡ some r
    → resolve_variable o w fuel ((id, name) ∷ visiting) r.target r.target_variable ≡ err no_rows
    → resolve_variable o w (suc fuel) visiting id name ≡ err no_rows
unfolding resolve_variable
read_dangling o c w fuel visiting id name v r configured free found own opened row missing =
    >>=-ok _ _ (ap (λ b. refuse b reference_cycle) free)
    ∙ (>>=-ok _ _ (ap (λ r. or_else r no_rows) found)
        ∙ (>>=-ok _ _ (ap (λ k. or_else k no_cipher) configured)
            ∙ (>>=-ok _ _ opened
                ∙ rw own (
                    ap
                      (λ x. follow [] x (λ target variable.
                        resolve_variable o w fuel ((id, name) ∷ visiting) target variable))
                      row
                    ∙ ap (or_fallback []) missing))))

-- With a cipher that decrypts what it encrypted and a nonce of its size, a variable that
-- SetVariableTyped has set, whatever it was before, reads as the value that was given.
pub set_variable-resolve_variable :
    (o : Outside) (c : Aead) (nonce : Text) (id : ℕ) (name value : Text) (kind : VariableKind)
    (w : Workspace) {q : Workspace}
    → o.cipher ≡ some c
    → ((n v s : Text) → c.decrypt n (c.encrypt n v s) s ≡ some v)
    → length nonce ≡ c.nonce_size
    → set_variable o nonce id name value kind w ≡ ok q
    → resolve_variable o q (resolve_fuel q) [] id name ≡ ok value
unfolding put_variable
set_variable-resolve_variable o c nonce id name value kind w {q = q} configured inverse size h =
    let s = set_variable-IsAssigned o nonce id name value kind w h in
    let same = of_some_eq (sym s.configured ∙ configured) in
    let text = seal s.cipher nonce value (variable_scope id name) in
    let (z, found, (sealed, own)) =
      find-upserted (λ v. (v.ciphertext ≡ text) × (v.kind ≡ kind)) (variable_at id name)
        (stored text kind) (record { service_id = id; name = name; ciphertext = text; kind = kind })
        w.variables (λ v e. e) (same_key_refl id name) (λ v e. (refl, refl)) (refl, refl) in
    read_row o c q (length q.variables) [] id name z configured refl
      (ap (λ x. find (variable_at id name) x.variables) s.written ∙ found)
      (ap is_reference own ∙ s.own_kind)
      (ap (λ t. open_sealed c t (variable_scope id name))
          (sealed ∙ ap (λ d. seal d nonce value (variable_scope id name)) same)
        ∙ open-seal c nonce value (variable_scope id name) size inverse)
