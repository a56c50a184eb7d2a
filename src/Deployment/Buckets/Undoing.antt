-- ===== src/Deployment/Buckets/Undoing.antt =====
-- UnbindBucket takes back what BindBucket wrote for a service that the bucket was not bound to.
use cloudrail.Common.{
  ==_iff, ==_refl, All, Bool, Bool-cases, List, [], any, ap, arith, drop, false, if◌then◌else◌, inl,
  inr, refl, some, subst, suc, sym, take, true, ℕ, ◌++◌, ◌==◌, ◌||◌, ◌∙◌, ◌∷◌, ◌≡◌,
}
use cloudrail.Common.Table.{count, delete, exists, find, find_sound, update}
use cloudrail.Common.Table.Writes.{delete-append, find-after, upsert}
use cloudrail.Common.Text.{Text, bytes, equals, equals_refl}
use cloudrail.Deployment.Buckets.{
  Credentials, Formats, bind_bucket, bind_entries, binding_of, binding_under, bound, bound_name,
  bucket_by_id, bucket_variables, check_prefix, keeps_bucket, keeps_prefix, prefixed, put_bound,
  resealed, unbind_bucket, upper_prefix,
}
use cloudrail.Deployment.Buckets.Keeping.{bind_bucket-IsBound}
use cloudrail.Deployment.Histories.{after}
use cloudrail.Deployment.Outside.{Env, Outside}
use cloudrail.Deployment.Variables.{
  Binding, Bucket, Variable, Workspace, managed_suffixes, variable_at, variable_scope,
}
use cloudrail.Deployment.Variables.Keys.{same_key_sound}
use cloudrail.Result.{>>=-ok, names_taken, no_rows, ok, or_else, require, require-eq-ok, then-eq-ok}
use cloudrail.Secrets.{Aead, seal}

module _ {ℓ} {A : Type ℓ} where
  -- A deletion of the rows that an upsert makes or changes.
  delete-upsert :
      (k p : A → Bool) (f : A → A) (y : A) (xs : List A)
      → ((x : A) → k x ≡ true → p x ≡ true)
      → ((x : A) → k x ≡ true → p (f x) ≡ true)
      → p y ≡ true
      → delete p (upsert k f y xs) ≡ delete p xs
  unfolding upsert delete update
  delete-upsert k p f y xs own made new = elim (Bool-cases (exists k xs)) [
    | inl t ↦ rw t (changed xs)
    | inr t ↦ rw t (appended xs)
  ]
    where
      changed : (zs : List A) → delete p (update k f zs) ≡ delete p zs
      changed [] = refl
      changed (z ∷ zs) = elim (Bool-cases (k z)) [
        | inl t ↦ rw t (rw (made z t) (rw (own z t) (changed zs)))
        | inr t ↦ rw t (ap (λ r. if p z then r else z ∷ r) (changed zs))
      ]

      appended : (zs : List A) → delete p (zs ++ y ∷ []) ≡ delete p zs
      appended [] = rw new refl
      appended (z ∷ zs) = ap (λ r. if p z then r else z ∷ r) (appended zs)

  delete-nothing : (p : A → Bool) (xs : List A) → count p xs ≡ 0 → delete p xs ≡ xs
  unfolding delete count
  delete-nothing p [] h = refl
  delete-nothing p (x ∷ xs) h = elim (Bool-cases (p x)) [
    | inl t ↦ absurd (omega (arith, rw t at h))
    | inr t ↦ rw t (ap (λ r. x ∷ r) (delete-nothing p xs (rw t at h)))
  ]

module _ (c : Aead) (draw : ℕ → Text) (service : ℕ) (prefix : Text) where
  bind_entries-delete :
      (n : ℕ) (entries : Env) (vs : List Variable)
      → All (λ e. any (λ suffix. equals (e.0) (prefix ++ suffix)) managed_suffixes ≡ true) entries
      → delete (bound_name service prefix) (bind_entries c draw n service entries vs)
        ≡ delete (bound_name service prefix) vs
  unfolding bind_entries put_bound
  bind_entries-delete n [] vs h = refl
  bind_entries-delete n (e ∷ rest) vs (k, h) =
      bind_entries-delete (suc n) rest _ h
      ∙ delete-upsert (variable_at service (e.0)) (bound_name service prefix)
          (resealed (seal c (draw n) (e.1) (variable_scope service (e.0)))) _ vs own own
          (rw (==_refl service) k)
    where
      own : (v : Variable) → variable_at service (e.0) v ≡ true → bound_name service prefix v ≡ true
      own v t =
          let (i, m) = same_key_sound v.service_id v.name service (e.0) t in
          rw (i, m) (rw (==_refl service) k)

here_or : (a b : Bool) → a ≡ true → (a || b) ≡ true
here_or true b h = refl
here_or false b h = cc

or_there : (a b : Bool) → b ≡ true → (a || b) ≡ true
or_there true b h = refl
or_there false b h = h

any_at :
    (prefix s : Text) (before after : List Text)
    → any (λ suffix. equals (prefix ++ s) (prefix ++ suffix)) (before ++ s ∷ after) ≡ true
any_at prefix s [] after = here_or _ _ (equals_refl (prefix ++ s))
any_at prefix s (t ∷ before) after = or_there _ _ (any_at prefix s before after)

-- The names that BindBucket writes are those that UnbindBucket deletes.
managed_names :
    (prefix : Text) (b : Bucket) (k : Credentials)
    → All
        (λ e. any (λ suffix. equals (e.0) (prefix ++ suffix)) managed_suffixes ≡ true)
        (bucket_variables prefix b k)
unfolding bucket_variables
managed_names prefix b k = (
  any_at prefix (bytes "_BUCKET") (take 0 managed_suffixes) (drop 1 managed_suffixes),
  (
    any_at prefix (bytes "_ENDPOINT") (take 1 managed_suffixes) (drop 2 managed_suffixes),
    (
      any_at prefix (bytes "_REGION") (take 2 managed_suffixes) (drop 3 managed_suffixes),
      (
        any_at prefix (bytes "_ACCESS_KEY_ID") (take 3 managed_suffixes) (drop 4 managed_suffixes),
        (
          any_at prefix (bytes "_SECRET_ACCESS_KEY") (take 4 managed_suffixes)
              (drop 5 managed_suffixes),
          (
            any_at prefix (bytes "_FORCE_PATH_STYLE") (take 5 managed_suffixes)
                (drop 6 managed_suffixes),
            tt,
          ),
        ),
      ),
    ),
  ),
)

-- Where the bucket is not bound to the service, no variable has a name that the binding takes.
unbound-names :
    (id service : ℕ) (prefix : Text) (w : Workspace)
    → exists (binding_of id service) w.bindings ≡ false
    → check_prefix id service prefix w ≡ ok tt
    → count (bound_name service prefix) w.variables ≡ 0
unfolding check_prefix
unbound-names id service prefix w none_yet h =
    let (_, h1) = then-eq-ok (keeps_prefix prefix (find (binding_of id service) w.bindings)) _ h in
    let (_, h2) =
      then-eq-ok (keeps_bucket id (find (binding_under service prefix) w.bindings)) _ h1 in
    let (free, _) =
      then-eq-ok (require (count (bound_name service prefix) w.variables == 0) names_taken) _
        (rw none_yet at h2) in
    (==_iff _ 0).0 (require-eq-ok _ _ free)

-- For a service that the bucket is not bound to, UnbindBucket after BindBucket succeeds and gives
-- back the workspace as it was, the service's other variables included.
pub bind_bucket-unbind_bucket :
    (o : Outside) (f : Formats) (draw : ℕ → Text) (id service : ℕ) (given : Text) (w : Workspace)
    {q : Workspace}
    → exists (binding_of id service) w.bindings ≡ false
    → bind_bucket o f draw id service given w ≡ ok q
    → unbind_bucket id service q ≡ ok w
unfolding unbind_bucket bound upsert
bind_bucket-unbind_bucket o f draw id service given w {q = q} none_yet h =
    let s = bind_bucket-IsBound o f draw id service given w h in
    let prefix = upper_prefix given in
    let i = (==_iff s.bucket.id id).0 (find_sound (bucket_by_id id) w.buckets s.bucket_found) in
    let new : Binding = record { bucket_id = s.bucket.id; service_id = service; prefix = prefix } in
    let own : binding_of id service new ≡ true = rw (i, ==_refl id) (==_refl service) in
    let added : q.bindings ≡ w.bindings ++ new ∷ [] =
      ap (λ x. x.bindings) s.written
      ∙ ap
          (λ b.
            if b
            then update (binding_of s.bucket.id service) (prefixed prefix) w.bindings
            else w.bindings ++ new ∷ [])
          (subst (λ x. exists (binding_of x service) w.bindings ≡ false) (sym i) none_yet) in
    let found : find (binding_of id service) q.bindings ≡ some new =
      ap (find (binding_of id service)) added
      ∙ find-after (binding_of id service) w.bindings new none_yet own in
    let bindings =
      ap (delete (binding_of id service)) added
      ∙ delete-append (binding_of id service) w.bindings new none_yet own in
    let variables =
      ap (λ x. delete (bound_name service prefix) x.variables) s.written
      ∙ (bind_entries-delete s.cipher draw service prefix 0
            (bucket_variables prefix s.bucket s.keys) w.variables
            (managed_names prefix s.bucket s.keys)
          ∙ delete-nothing (bound_name service prefix) w.variables
              (unbound-names id service prefix w none_yet s.checked)) in
    >>=-ok _ _ (ap (λ b. or_else b no_rows) found)
    ∙ ap ok (
        rest-same bindings variables (ap (λ x. x.main) s.written) (ap (λ x. x.references) s.written)
          (ap (λ x. x.buckets) s.written))
  where
    rest-same :
        {bs : List Binding} {vs : List Variable}
        → bs ≡ w.bindings
        → vs ≡ w.variables
        → q.main ≡ w.main
        → q.references ≡ w.references
        → q.buckets ≡ w.buckets
        → record q { bindings = bs; variables = vs } ≡ w
    rest-same b v m r k = cc
