-- ===== src/Deployment/Variables/Cycles.antt =====
-- The references between services, and the search for a cycle before a reference is made.
use cloudrail.Common.{
  ==_refl, Bool, List, Option-cases, [], and_right, any, arith, inl, inr, length, none, not, refl,
  subst, suc, sym, true, zero, ℕ, ◌&&◌, ◌<◌, ◌==◌, ◌∙◌, ◌∷◌, ◌≡◌, ◌⊎◌,
}
use cloudrail.Common.Table.{count, exists, find, find_sound}
use cloudrail.Common.Table.Counts.{count-fewer, count_le_length}
use cloudrail.Deployment.Variables.{Reference, closure, frontier, reachable, targets_of}

-- a row that leads from one service to another
abbrev pub links : ℕ → ℕ → Reference → Bool
links a b r = r.source == a && r.target == b

-- one reference or more lead from `a` to `b`
pub data Reaches (rs : List Reference) : ℕ → ℕ → Type 0 where
  directly : {a b : ℕ} → exists (links a b) rs ≡ true → Reaches rs a b
  onward : {a b c : ℕ} → exists (links a b) rs ≡ true → Reaches rs b c → Reaches rs a c

abbrev pub IsAcyclic : List Reference → Type 0
IsAcyclic rs = (a : ℕ) → ¬ Reaches rs a a

pub Reaches-trans :
    {rs : List Reference} {a b c : ℕ} → Reaches rs a b → Reaches rs b c → Reaches rs a c
Reaches-trans (directly l) k = onward l k
Reaches-trans (onward l h) k = onward l (Reaches-trans h k)

pub nowhere : {a b : ℕ} → ¬ Reaches [] a b
unfolding exists
nowhere (directly l) = cc
nowhere (onward l _) = cc

-- What leads on in a table does so in one that has its references.
pub Reaches-map :
    {rs ss : List Reference}
    → ((a b : ℕ) → exists (links a b) rs ≡ true → exists (links a b) ss ≡ true)
    → {a b : ℕ} → Reaches rs a b
    → Reaches ss a b
Reaches-map f (directly {a = a} {b = b} l) = directly (f a b l)
Reaches-map f (onward {a = a} {b = b} l h) = onward (f a b l) (Reaches-map f h)

-- A new reference closes no cycle, where its target does not lead back to its source.
pub IsAcyclic-link :
    {rs ss : List Reference} (s t : ℕ)
    → ((a b : ℕ)
        → exists (links a b) ss ≡ true
        → (exists (links a b) rs ≡ true) ⊎ ((a ≡ s) × (b ≡ t)))
    → ¬ (s ≡ t)
    → ¬ Reaches rs t s
    → IsAcyclic rs
    → IsAcyclic ss
IsAcyclic-link {rs = rs} {ss = ss} s t new apart back h a c = elim (split c) [
  | inl k ↦ h a k
  | inr (inl e, inl f) ↦ apart (sym e ∙ f)
  | inr (inl e, inr f) ↦ back (subst (λ x. Reaches rs t x) e f)
  | inr (inr e, inl f) ↦ back (subst (λ x. Reaches rs x s) f e)
  | inr (inr e, inr f) ↦ back (Reaches-trans f e)
]
  where
    split :
        {a b : ℕ}
        → Reaches ss a b
        → Reaches rs a b ⊎ (((a ≡ s) ⊎ Reaches rs a s) × ((b ≡ t) ⊎ Reaches rs t b))
    split (directly {a = a} {b = b} l) = elim (new a b l) [
      | inl k ↦ inl (directly k)
      | inr (e, f) ↦ inr (inl e, inl f)
    ]
    split (onward {a = a} {b = b} {c = c} l k) = elim (new a b l) [
      | inl m ↦ elim (split k) [
        | inl n ↦ inl (onward m n)
        | inr (inl e, f) ↦ inr (inr (subst (λ x. Reaches rs a x) e (directly m)), f)
        | inr (inr e, f) ↦ inr (inr (onward m e), f)
      ]
      | inr (e, f) ↦ elim (split k) [
        | inl n ↦ inr (inl e, inr (subst (λ x. Reaches rs x c) f n))
        | inr (u, v) ↦ inr (inl e, v)
      ]
    ]

abbrev has : ℕ → List ℕ → Bool
has a seen = any (λ s. s == a) seen

-- a reference to a service that the search has not reached
abbrev unseen : List ℕ → Reference → Bool
unseen seen r = not (has r.target seen)

-- The search ends with no reference that leads on, where its fuel exceeds the rows to reach.
closure-IsClosed :
    (fuel : ℕ) (rs : List Reference) (seen : List ℕ)
    → count (unseen seen) rs < fuel
    → find (frontier (closure fuel rs seen)) rs ≡ none
unfolding closure
closure-IsClosed zero rs seen h = absurd (omega arith)
closure-IsClosed (suc fuel) rs seen h = elim (Option-cases (find (frontier seen) rs)) [
  | inl n ↦ rw (n, closure) n
  | inr (r, e) ↦
      let f = find_sound (frontier seen) rs e in
      let l : count (unseen (r.target ∷ seen)) rs < count (unseen seen) rs =
        count-fewer (unseen seen) (unseen (r.target ∷ seen)) (frontier seen) rs e
          (and_right (has r.source seen) (unseen seen r) f) (rw (==_refl r.target) refl)
          (λ y. wider y r.target) in
      rw (e, closure) (closure-IsClosed fuel rs (r.target ∷ seen) (omega arith))
]
  where
    wider : (y : Reference) (t : ℕ) → unseen (t ∷ seen) y ≡ true → unseen seen y ≡ true
    wider y t k = ground arith

closure-has :
    (fuel : ℕ) (rs : List Reference) (seen : List ℕ) (a : ℕ)
    → has a seen ≡ true
    → has a (closure fuel rs seen) ≡ true
unfolding closure
closure-has zero rs seen a h = h
closure-has (suc fuel) rs seen a h = elim (Option-cases (find (frontier seen) rs)) [
  | inl n ↦ rw (n, closure) h
  | inr (r, e) ↦ rw (e, closure) (closure-has fuel rs (r.target ∷ seen) a (ground arith))
]

targets_of-has :
    (rs : List Reference) (a b : ℕ) → exists (links a b) rs ≡ true → has b (targets_of a rs) ≡ true
unfolding targets_of exists
targets_of-has [] a b h = cc
targets_of-has (r ∷ rs) a b h = ground (arith, targets_of-has rs a b)

closed_step :
    (rs : List Reference) (seen : List ℕ) (a b : ℕ)
    → find (frontier seen) rs ≡ none
    → has a seen ≡ true
    → exists (links a b) rs ≡ true
    → has b seen ≡ true
unfolding exists find
closed_step [] seen a b n h k = cc
closed_step (r ∷ rs) seen a b n h k = ground (arith, closed_step rs seen a b)

closed_path :
    (rs : List Reference) (seen : List ℕ)
    → find (frontier seen) rs ≡ none
    → {a b : ℕ} → Reaches rs a b
    → has a seen ≡ true
    → has b seen ≡ true
closed_path rs seen n (directly {a = a} {b = b} l) h = closed_step rs seen a b n h l
closed_path rs seen n (onward {a = a} {b = b} l k) h =
    closed_path rs seen n k (closed_step rs seen a b n h l)

-- The recursive query finds every service that a service's references lead to.
pub reachable_complete :
    (rs : List Reference) (a b : ℕ) → Reaches rs a b → any (λ s. s == b) (reachable a rs) ≡ true
unfolding reachable
reachable_complete rs a b h =
    let start = targets_of a rs in
    let l = count_le_length (unseen start) rs in
    let closed = closure-IsClosed (suc (length rs)) rs start (omega arith) in from closed h
  where
    from :
        find (frontier (closure (suc (length rs)) rs (targets_of a rs))) rs ≡ none
        → {b : ℕ} → Reaches rs a b
        → has b (closure (suc (length rs)) rs (targets_of a rs)) ≡ true
    from closed (directly {b = b} l) =
        closure-has (suc (length rs)) rs (targets_of a rs) b (targets_of-has rs a b l)
    from closed (onward {b = b} l k) =
        closed_path rs (closure (suc (length rs)) rs (targets_of a rs)) closed k
          (closure-has (suc (length rs)) rs (targets_of a rs) b (targets_of-has rs a b l))
