-- ===== src/Auth/Limits.antt =====
-- How many attempts to log in are let through in a quarter of an hour.
use cloudrail.Auth.{
  Attempts, AuthDb, Crypto, allow_attempt, attempt_on, counted, of_key, put_attempts,
  write_attempts,
}
use cloudrail.Common.{
  All, Bool, Bool-cases, List, Option, Option-cases, [], ap, arith, false, if◌then◌else◌, inl, inr,
  leb, none, refl, some, subst, suc, true, ℕ, ◌&&◌, ◌+◌, ◌-◌, ◌∙◌, ◌∷◌, ◌≡◌, ◌≤◌,
}
use cloudrail.Common.Table.{find, find-append, find-update, find_sound, updated}
use cloudrail.Common.Text.{Text, equals, equals_refl, equals_sound}
use cloudrail.Deployment.Model.{seconds}

-- One attempt: its time, and the address of the caller.
abbrev pub Attempt : Type 0
Attempt = ℕ × Text

-- how many of the attempts from an address with this key are let through
unfoldable pub let_through : Crypto → Text → List Attempt → AuthDb → ℕ
let_through o key [] db = 0
let_through o key (c ∷ calls) db =
    let r = allow_attempt o (c.0) (c.1) db in
    let rest = let_through o key calls (r.1) in
    if equals (o.digest (c.1)) key && r.0 then suc rest else rest

-- every attempt is made in the quarter of an hour from `start` on
abbrev pub Within : ℕ → List Attempt → Type 0
Within start calls = All (λ c. (start ≤ c.0) × (c.0 ≤ start + seconds 900)) calls

-- what the row of a key leaves for the quarter of an hour
abbrev budget : ℕ → Option Attempts → ℕ
budget start none = 20
budget start (some a) = if leb start a.window_start then 20 - a.attempts else (20 - a.attempts) + 20

-- the row of the key after an attempt
unfoldable next_row : ℕ → Text → Option Attempts → Option Attempts
unfolding counted
next_row now key none = some (record { key = key; window_start = now; attempts = 1 })
next_row now key (some a) = elim (counted now a) [
  | none ↦ some a
  | some b ↦ some (put_attempts b a)
]

passes : ℕ → Option Attempts → Bool
passes now none = true
passes now (some a) = elim (counted now a) [ none ↦ false | some b ↦ leb b.attempts 20 ]

-- An attempt that is let through is paid for.
paid :
    (start now : ℕ) (key : Text) (row : Option Attempts)
    → start ≤ now
    → now ≤ start + seconds 900
    → budget start (next_row now key row) + (if passes now row then 1 else 0) ≤ budget start row
unfolding next_row passes counted
paid start now key none l m = ground arith
paid start now key (some a) l m = ground arith

module _ (key : Text) (now : ℕ) (db : AuthDb) where
  -- The row of the key after an attempt, and whether the attempt is let through.
  row_after :
      (row : Option Attempts)
      → find (of_key key) db.attempts ≡ row
      → find (of_key key) ((attempt_on key now row db).1).attempts ≡ next_row now key row
  unfolding attempt_on next_row
  row_after none h = find-append (of_key key) db.attempts _ ∙ rw h (rw (equals_refl key) refl)
  row_after (some a) h = written (counted now a)
    where
      written :
          (c : Option Attempts)
          → find (of_key key) ((write_attempts key c db).1).attempts
            ≡ elim c [ none ↦ some a | some b ↦ some (put_attempts b a) ]
      written none = h
      written (some b) =
          find-update (of_key key) (of_key key) (put_attempts b) db.attempts (λ x. refl)
          ∙ (ap (updated (of_key key) (put_attempts b)) h
              ∙ rw (find_sound (of_key key) db.attempts h) refl)

  passed : (row : Option Attempts) → (attempt_on key now row db).0 ≡ passes now row
  unfolding attempt_on passes
  passed none = refl
  passed (some a) = written (counted now a)
    where
      written :
          (c : Option Attempts)
          → (write_attempts key c db).0 ≡ elim c [ none ↦ false | some b ↦ leb b.attempts 20 ]
      written none = refl
      written (some b) = refl

  -- An attempt leaves the rows of the other keys.
  other_row :
      (other : Text) (row : Option Attempts)
      → equals key other ≡ false
      → find (of_key other) ((attempt_on key now row db).1).attempts
        ≡ find (of_key other) db.attempts
  unfolding attempt_on
  other_row other none apart = elim (Option-cases (find (of_key other) db.attempts)) [
    | inl n ↦ find-append (of_key other) db.attempts _ ∙ rw n (rw apart refl)
    | inr (a, h) ↦ find-append (of_key other) db.attempts _ ∙ rw h refl
  ]
  other_row other (some a) apart = written (counted now a)
    where
      kept :
          (b : Attempts) (r : Option Attempts)
          → find (of_key other) db.attempts ≡ r
          → updated (of_key key) (put_attempts b) r ≡ r
      kept b none h = refl
      kept b (some x) h =
          let e = equals_sound x.key other (find_sound (of_key other) db.attempts h) in
          rw e (elim (Bool-cases (equals other key)) [
            | inl t ↦ absurd (
                cc (
                  apart,
                  subst (λ k. equals k other ≡ true) (equals_sound other key t) (equals_refl other),
                ))
            | inr t ↦ rw t refl
          ])

      written :
          (c : Option Attempts)
          → find (of_key other) ((write_attempts key c db).1).attempts
            ≡ find (of_key other) db.attempts
      written none = refl
      written (some b) =
          find-update (of_key other) (of_key key) (put_attempts b) db.attempts (λ x. refl)
          ∙ kept b (find (of_key other) db.attempts) refl

let_through-budget :
    (o : Crypto) (key : Text) (start : ℕ) (calls : List Attempt) (db : AuthDb)
    → Within start calls
    → let_through o key calls db ≤ budget start (find (of_key key) db.attempts)
unfolding let_through allow_attempt
let_through-budget o key start [] db h = omega arith
let_through-budget o key start (c ∷ calls) db ((l, m), h) =
    let k = o.digest (c.1) in
    let row = find (of_key k) db.attempts in
    let q = (attempt_on k (c.0) row db).1 in
    let rest = let_through-budget o key start calls q h in
    elim (Bool-cases (equals k key)) [
      | inl t ↦
          let e = equals_sound k key t in
          rw t (
            rw (passed k (c.0) db row) (
              one_more (passes (c.0) row)
                (subst (λ x. let_through o key calls q ≤ budget start x)
                  (subst (λ x. find (of_key x) q.attempts ≡ next_row (c.0) x row) e
                    (row_after k (c.0) db row refl))
                  rest)
                (subst
                  (λ x.
                    budget start (next_row (c.0) x row) + (if passes (c.0) row then 1 else 0)
                    ≤ budget start (find (of_key x) db.attempts))
                  e (paid start (c.0) k row l m))))
      | inr t ↦ rw t (
          subst (λ x. let_through o key calls q ≤ budget start x) (other_row k (c.0) db key row t)
            rest)
    ]
  where
    one_more :
        {n m p : ℕ} (b : Bool) → n ≤ m → m + (if b then 1 else 0) ≤ p → (if b then suc n else n) ≤ p
    one_more true x y = omega arith
    one_more false x y = omega arith

-- In a quarter of an hour no more than forty attempts from the addresses of one key are let through,
-- whatever the table held before, and whatever is tried from other addresses; for a key that the
-- table does not hold yet it is twenty.
pub let_through-bounded :
    (o : Crypto) (key : Text) (start : ℕ) (calls : List Attempt) (db : AuthDb)
    → Within start calls
    → (let_through o key calls db ≤ 40)
      × (find (of_key key) db.attempts ≡ none → let_through o key calls db ≤ 20)
let_through-bounded o key start calls db h =
    let l = let_through-budget o key start calls db h in
    (
      within (find (of_key key) db.attempts) l,
      λ n. subst (λ r. let_through o key calls db ≤ budget start r) n l,
    )
  where
    within :
        (r : Option Attempts)
        → let_through o key calls db ≤ budget start r
        → let_through o key calls db ≤ 40
    within none k = omega arith
    within (some a) k = ground arith
