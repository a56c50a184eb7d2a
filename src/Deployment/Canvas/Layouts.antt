-- ===== src/Deployment/Canvas/Layouts.antt =====
-- Saving the places of resources.
use cloudrail.Common.{
  ==_iff, ==_refl, All, Bool-cases, List, Option, String, [], and_right, any, ap, arith, false, inl,
  inr, length, ltb, none, not, not-false, or_four, refl, some, subst, sym, true, ℕ, ◌==◌, ◌||◌, ◌∙◌,
  ◌∷◌, ◌≡◌, ◌≤◌,
}
use cloudrail.Common.Table.{exists}
use cloudrail.Common.Table.Found.{find-upsert-other, find-upserted}
use cloudrail.Common.Table.Writes.{upsert}
use cloudrail.Common.Text.{equals_refl, equals_sound}
use cloudrail.Deployment.Canvas.{
  CanvasDb, Layout, Position, PositionUpdate, Resource, ResourceKey, canvas, check_updates,
  is_environment, is_outside, items, layout_at, of_bucket, of_service, of_volume_id, place,
  same_resource, save_layout, saved_position, unknown, write_updates, moved_to,
}
use cloudrail.Result.{
  >>=-eq-ok, invalid_layout, no_rows, ok, ok-injective, refuse, refuse-eq-ok, require, then-eq-ok,
}
use text.Mathlib.TextPositions.{eq_refl}

same_resource_sound : (a b : ResourceKey) → same_resource a b ≡ true → a ≡ b
unfolding same_resource
same_resource_sound (of_service a) (of_service b) h = ap of_service ((==_iff a b).0 h)
same_resource_sound (of_volume_id a) (of_volume_id b) h = ap of_volume_id ((==_iff a b).0 h)
same_resource_sound (of_bucket a) (of_bucket b) h = ap of_bucket ((==_iff a b).0 h)
same_resource_sound (unknown s) (unknown t) h = ap unknown (equals_sound s t h)
same_resource_sound (of_service a) (of_volume_id b) h = absurd (cc)
same_resource_sound (of_service a) (of_bucket b) h = absurd (cc)
same_resource_sound (of_service a) (unknown b) h = absurd (cc)
same_resource_sound (of_volume_id a) (of_service b) h = absurd (cc)
same_resource_sound (of_volume_id a) (of_bucket b) h = absurd (cc)
same_resource_sound (of_volume_id a) (unknown b) h = absurd (cc)
same_resource_sound (of_bucket a) (of_service b) h = absurd (cc)
same_resource_sound (of_bucket a) (of_volume_id b) h = absurd (cc)
same_resource_sound (of_bucket a) (unknown b) h = absurd (cc)
same_resource_sound (unknown a) (of_service b) h = absurd (cc)
same_resource_sound (unknown a) (of_volume_id b) h = absurd (cc)
same_resource_sound (unknown a) (of_bucket b) h = absurd (cc)

same_resource_refl : (a : ResourceKey) → same_resource a a ≡ true
unfolding same_resource
same_resource_refl (of_service a) = ==_refl a
same_resource_refl (of_volume_id a) = ==_refl a
same_resource_refl (of_bucket a) = ==_refl a
same_resource_refl (unknown s) = equals_refl s

-- A key that is one of two different ones is not the other.
resources_apart :
    (k a b : ResourceKey)
    → same_resource a b ≡ false
    → same_resource k a ≡ true
    → same_resource k b ≡ false
resources_apart k a b h e =
    subst (λ x. same_resource x b ≡ false) (sym (same_resource_sound k a e)) h

resources_apart_sym : (a b : ResourceKey) → same_resource a b ≡ false → same_resource b a ≡ false
resources_apart_sym a b h = elim (Bool-cases (same_resource b a)) [
  | inr t ↦ t
  | inl t ↦ absurd (
      cc (
        h,
        subst (λ x. same_resource x b ≡ true) (same_resource_sound b a t) (same_resource_refl b),
      ))
]

module _ (project : ℕ) (environment : String) where
  abbrev place_of : ResourceKey → List Layout → Option Position
  place_of key ls = saved_position project environment key ls

  abbrev row_of : PositionUpdate → Layout
  row_of u = record {
    project = project;
    environment = environment;
    key = u.key;
    position = u.position;
  }

  own_layout : (u : PositionUpdate) → layout_at project environment u.key (row_of u) ≡ true
  own_layout u = rw (==_refl project) (rw (eq_refl environment) (same_resource_refl u.key))

  -- The place of the updated resource, and those of the others.
  upsert-saved :
      (u : PositionUpdate) (ls : List Layout)
      → place_of u.key
          (upsert (layout_at project environment u.key) (moved_to u.position) (row_of u) ls)
        ≡ some u.position
  upsert-saved u ls =
      let (l, e, p) =
        find-upserted (λ l. l.position ≡ u.position) (layout_at project environment u.key)
          (moved_to u.position) (row_of u) ls (λ l h. h) (own_layout u) (λ l h. refl) refl in
      ap (λ r. elim r [ none ↦ none | some l ↦ some l.position ]) e ∙ ap some p

  upsert-others :
      (key : ResourceKey) (u : PositionUpdate) (ls : List Layout)
      → same_resource u.key key ≡ false
      → place_of key
          (upsert (layout_at project environment u.key) (moved_to u.position) (row_of u) ls)
        ≡ place_of key ls
  upsert-others key u ls apart =
      ap (λ r. elim r [ none ↦ none | some l ↦ some l.position ])
        (find-upsert-other (layout_at project environment key) (layout_at project environment u.key)
          (moved_to u.position) (row_of u) ls (λ l. refl) (λ l h. other l (and_right _ _ h))
          (rw apart (ground arith)))
    where
      other :
          (l : Layout)
          → same_resource l.key key ≡ true
          → layout_at project environment u.key l ≡ false
      other l h =
          rw (resources_apart l.key key u.key (resources_apart_sym u.key key apart) h)
            (ground arith)

  -- The updates leave the places of the resources that none of them is for.
  write_updates-others :
      (key : ResourceKey) (us : List PositionUpdate) (ls : List Layout)
      → All (λ u. same_resource u.key key ≡ false) us
      → place_of key (write_updates project environment us ls) ≡ place_of key ls
  unfolding write_updates
  write_updates-others key [] ls h = refl
  write_updates-others key (u ∷ us) ls (apart, h) =
      write_updates-others key us _ h ∙ upsert-others key u ls apart

-- what the loop has checked of an update
abbrev pub IsPlaceable : List Resource → PositionUpdate → Type 0
IsPlaceable rs u =
    (exists (λ r. same_resource r.item.key u.key) rs ≡ true)
    × (is_outside u.position.x ≡ false)
    × (is_outside u.position.y ≡ false)

checked-head :
    (rs : List Resource) (seen : List ResourceKey) (u : PositionUpdate) (us : List PositionUpdate)
    → check_updates rs seen (u ∷ us) ≡ ok tt
    → (any (λ k. same_resource k u.key) seen ≡ false)
      × IsPlaceable rs u
      × (check_updates rs (u.key ∷ seen) us ≡ ok tt)
unfolding check_updates
checked-head rs seen u us h =
    let (free, rest) =
      then-eq-ok
        (refuse
          (not (exists (λ r. same_resource r.item.key u.key) rs)
            || any (λ k. same_resource k u.key) seen
            || is_outside u.position.x
            || is_outside u.position.y)
          invalid_layout)
        _ h in
    let (a, b, x, y) = or_four _ _ _ _ (refuse-eq-ok _ _ free) in (b, (not-false _ a, x, y), rest)

-- Each update is for another resource than those before it.
checked-apart :
    (rs : List Resource) (seen : List ResourceKey) (us : List PositionUpdate) (key : ResourceKey)
    → check_updates rs seen us ≡ ok tt
    → any (λ k. same_resource k key) seen ≡ true
    → All (λ u. same_resource u.key key ≡ false) us
checked-apart rs seen [] key h e = tt
checked-apart rs seen (u ∷ us) key h e =
    let (free, _, rest) = checked-head rs seen u us h in
    (
      elim (Bool-cases (same_resource u.key key)) [
        | inr t ↦ t
        | inl t ↦ absurd (
            cc (
              free,
              subst (λ x. any (λ k. same_resource k x) seen ≡ true)
                  (sym (same_resource_sound u.key key t)) e,
            ))
      ],
      checked-apart rs (u.key ∷ seen) us key rest (ground arith),
    )

written-saved :
    (project : ℕ) (environment : String) (rs : List Resource) (seen : List ResourceKey)
    (us : List PositionUpdate) (ls : List Layout)
    → check_updates rs seen us ≡ ok tt
    → All
        (λ u.
          (saved_position project environment u.key (write_updates project environment us ls)
            ≡ some u.position)
          × IsPlaceable rs u)
        us
unfolding write_updates
written-saved project environment rs seen [] ls h = tt
written-saved project environment rs seen (u ∷ us) ls h =
    let (_, fits, rest) = checked-head rs seen u us h in
    let others =
      checked-apart rs (u.key ∷ seen) us u.key rest (rw (same_resource_refl u.key) refl) in
    (
      (
        write_updates-others project environment u.key us _ others
            ∙ upsert-saved project environment u ls,
        fits,
      ),
      written-saved project environment rs (u.key ∷ seen) us _ rest,
    )

-- Where SaveCanvasLayout succeeds there are 1 to 200 updates, each for a resource of the environment
-- and with coordinates from -100000 to 100000; each resource has the place that its update gives
-- it, and every resource without an update keeps the one it had.
pub save_layout-saved :
    (project : ℕ) (environment : String) (us : List PositionUpdate) (db : CanvasDb) {q : CanvasDb}
    → save_layout project environment us db ≡ ok q
    → (1 ≤ length us)
      × (length us ≤ 200)
      × All
          (λ u.
            (saved_position project environment u.key q.layouts ≡ some u.position)
            × IsPlaceable
                (place project environment db.layouts 0 (items project environment db.workspace))
                u)
          us
      × ((key : ResourceKey)
          → All (λ u. same_resource u.key key ≡ false) us
          → saved_position project environment key q.layouts
            ≡ saved_position project environment key db.layouts)
unfolding save_layout canvas
save_layout-saved project environment us db h =
    let (few, h1) =
      then-eq-ok (refuse (length us == 0 || ltb 200 (length us)) invalid_layout) _ h in
    let (graph, drawn, h2) = >>=-eq-ok (canvas project environment db) _ h1 in
    let (_, d) =
      then-eq-ok (require (exists (is_environment project environment) db.environments) no_rows) _
        drawn in
    let (checked, h3) = then-eq-ok (check_updates (graph.0) [] us) _ h2 in
    let layouts = ap (λ x. x.layouts) (ok-injective h3) in
    let rs = ap (λ g. g.0) (ok-injective d) in
    let size = refuse-eq-ok _ _ few in
    (
      at_least size,
      at_most size,
      subst
          (λ ls.
            All
              (λ u.
                (saved_position project environment u.key ls ≡ some u.position)
                × IsPlaceable
                    (place project environment db.layouts 0
                      (items project environment db.workspace))
                    u)
              us)
          layouts
          (written-saved project environment _ [] us db.layouts
            (subst (λ x. check_updates x [] us ≡ ok tt) (sym rs) checked)),
      λ key apart.
          subst
            (λ ls.
              saved_position project environment key ls
              ≡ saved_position project environment key db.layouts)
            layouts (write_updates-others project environment key us db.layouts apart),
    )
  where
    at_least : (length us == 0 || ltb 200 (length us)) ≡ false → 1 ≤ length us
    at_least s = ground arith

    at_most : (length us == 0 || ltb 200 (length us)) ≡ false → length us ≤ 200
    at_most s = ground arith
