-- ===== src/Deployment/Workspaces/Counting.antt =====
-- Binding a bucket, and rotating its credentials, keep the bound on variables.
use cloudrail.Common.{
  ==_iff, All, All-map, Bool-cases, List, [], and_right, ap₂, arith, false, if◌then◌else◌, inl, inr,
  ltb, refl, subst, sym, ℕ, ◌+◌, ◌==◌, ◌∷◌, ◌≡◌, ◌≤◌, ◌⊎◌,
}
use cloudrail.Common.Table.{All-find, count, exists, find, find_sound}
use cloudrail.Common.Table.Found.{All-upsert}
use cloudrail.Common.Table.Writes.{find-exists}
use cloudrail.Common.Text.{Text, equals_sound}
use cloudrail.Deployment.Buckets.{
  Credentials, Formats, bind_bucket, bind_entries, binding_of, binding_under, bound, bound_name,
  bucket_variables, check_prefix, keeps_bucket, keeps_prefix, prefixed, rebind, upper_prefix,
}
use cloudrail.Deployment.Buckets.Keeping.{bind_bucket-IsBound}
use cloudrail.Deployment.Outside.{Outside}
use cloudrail.Deployment.Variables.{Binding, Bucket, Key, Variable, Workspace, managed_suffixes}
use cloudrail.Deployment.Workspaces.Bounds.{HasNames, HasNames-map, IsBounded, of_service_id}
use cloudrail.Deployment.Workspaces.Limits.{
  bind_entries-count, bind_entries-kept, bind_entries-same, bind_entries-there, bind_entries_unique,
  of_names, to_names,
}
use cloudrail.Result.{names_taken, ok, refuse-eq-ok, require, require-eq-ok, then-eq-ok}
use cloudrail.Secrets.{Aead}

abbrev pub Bounded : Workspace → Type 0
Bounded w = IsBounded w.variables w.bindings

bound-IsBounded :
    (c : Aead) (draw : ℕ → Text) (b : Bucket) (service : ℕ) (prefix : Text) (k : Credentials)
    (w : Workspace)
    → ((a : ℕ)
        → count
            (of_service_id a)
            (bind_entries c draw 0 service (bucket_variables prefix b k) w.variables)
          ≤ 64)
    → Bounded w
    → Bounded (bound c draw b service prefix k w)
unfolding bound
bound-IsBounded c draw b service prefix k w within h =
    let entries = bucket_variables prefix b k in
    let vs = bind_entries c draw 0 service entries w.variables in
    let there =
      to_names service prefix b k vs (bind_entries-there c draw 0 service entries w.variables) in
    record {
      unique = bind_entries_unique c draw 0 service entries w.variables h.unique;
      within = within;
      bound =
          All-upsert _ (binding_of b.id service) (prefixed prefix) _ w.bindings
            (λ x _ e.
              subst (λ i. HasNames vs i prefix managed_suffixes)
                (sym ((==_iff x.service_id service).0 (and_right _ _ e))) there)
            there
            (All-map _ _
              (λ x.
                HasNames-map w.variables vs x.service_id x.prefix managed_suffixes
                  (λ a n. bind_entries-kept c draw 0 service entries w.variables a n))
              w.bindings h.bound);
    }

-- A binding that is there, under its prefix, or room for six more.
check_prefix-cases :
    (id service : ℕ) (prefix : Text) (w : Workspace)
    → check_prefix id service prefix w ≡ ok tt
    → Bounded w
    → HasNames w.variables service prefix managed_suffixes
      ⊎ (count (of_service_id service) w.variables + 6 ≤ 64)
unfolding check_prefix
check_prefix-cases id service prefix w h bounded =
    let (same, h1) =
      then-eq-ok (keeps_prefix prefix (find (binding_of id service) w.bindings)) _ h in
    let (_, h2) =
      then-eq-ok (keeps_bucket id (find (binding_under service prefix) w.bindings)) _ h1 in
    elim (Bool-cases (exists (binding_of id service) w.bindings)) [
      | inl t ↦
          let (b, e) = find-exists (binding_of id service) w.bindings t in
          let p =
            equals_sound b.prefix prefix
              (require-eq-ok _ _ (subst (λ x. keeps_prefix prefix x ≡ ok tt) e same)) in
          let i =
            (==_iff b.service_id service).0
              (and_right _ _ (find_sound (binding_of id service) w.bindings e)) in
          inl (
            subst (λ (x : Key). HasNames w.variables (x.0) (x.1) managed_suffixes)
              (ap₂ (λ x y. (x, y)) i p)
              (All-find _ (binding_of id service) w.bindings bounded.bound e))
      | inr t ↦
          let (_, few) =
            then-eq-ok (require (count (bound_name service prefix) w.variables == 0) names_taken) _
              (rw t at h2) in
          inr (room (refuse-eq-ok _ _ few))
    ]
  where
    room : {n : ℕ} → ltb 64 n ≡ false → n ≤ 64
    room l = ground arith

pub bind_bucket-IsBounded :
    (o : Outside) (f : Formats) (draw : ℕ → Text) (id service : ℕ) (given : Text) (w : Workspace)
    {q : Workspace}
    → bind_bucket o f draw id service given w ≡ ok q
    → Bounded w
    → Bounded q
unfolding bucket_variables
bind_bucket-IsBounded o f draw id service given w h bounded =
    let s = bind_bucket-IsBound o f draw id service given w h in
    let prefix = upper_prefix given in
    let entries = bucket_variables prefix s.bucket s.keys in
    subst Bounded (sym s.written) (
      bound-IsBounded s.cipher draw s.bucket service prefix s.keys w
        (λ a. elim (check_prefix-cases id service prefix w s.checked bounded) [
          | inl names ↦
              let e =
                bind_entries-same s.cipher draw 0 service entries (of_service_id a) w.variables
                  (λ t v. refl) (of_names service prefix s.bucket s.keys w.variables names) in
              let l = bounded.within a in rw e l
          | inr room ↦
              six a (bind_entries-count s.cipher draw 0 service entries w.variables a) room
                (bounded.within a)
        ])
        bounded)
  where
    six :
        (a : ℕ) {n : ℕ}
        → n ≤ count (of_service_id a) w.variables + (if service == a then 6 else 0)
        → count (of_service_id service) w.variables + 6 ≤ 64
        → count (of_service_id a) w.variables ≤ 64
        → n ≤ 64
    six a l room m = elim (Bool-cases (service == a)) [
      | inl t ↦
          let r =
            subst (λ x. count (of_service_id x) w.variables + 6 ≤ 64) ((==_iff service a).0 t)
              room in
          let k = rw t at l in omega arith
      | inr t ↦ let k = rw t at l in omega arith
    ]

pub rebind-IsBounded :
    (c : Aead) (draw : ℕ → Text) (n : ℕ) (b : Bucket) (k : Credentials) (xs : List Binding)
    (vs : List Variable) (bs : List Binding)
    → All (λ x. HasNames vs x.service_id x.prefix managed_suffixes) xs
    → IsBounded vs bs
    → IsBounded (rebind c draw n b k xs vs) bs
unfolding rebind
rebind-IsBounded c draw n b k [] vs bs names h = h
rebind-IsBounded c draw n b k (x ∷ xs) vs bs (own, names) h =
    let entries = bucket_variables x.prefix b k in
    let kept = λ (i : ℕ) (p : Text).
      HasNames-map vs (bind_entries c draw n x.service_id entries vs) i p managed_suffixes
        (λ a m. bind_entries-kept c draw n x.service_id entries vs a m) in
    rebind-IsBounded c draw (n + 6) b k xs _ bs
      (All-map _ _ (λ y. kept y.service_id y.prefix) xs names)
      (record {
        unique = bind_entries_unique c draw n x.service_id entries vs h.unique;
        within = λ a.
            let e =
              bind_entries-same c draw n x.service_id entries (of_service_id a) vs (λ t v. refl)
                (of_names x.service_id x.prefix b k vs own) in
            let l = h.within a in rw e l;
        bound = All-map _ _ (λ y. kept y.service_id y.prefix) bs h.bound;
      })
