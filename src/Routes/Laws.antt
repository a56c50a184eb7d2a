-- ===== src/Routes/Laws.antt =====
-- Setting a route is all or nothing, and concerns one service.
use cloudrail.Common.{
  ==-apart, ==_iff, ==_refl, Bool, Bool-cases, Option, Option-cases, and_right, ap, false, inl, inr,
  none, not, refl, some, subst, sym, true, ℕ, ◌==◌, ◌||◌, ◌∙◌, ◌≡◌, ◌⊎◌,
}
use cloudrail.Common.Table.{delete, exists, find, find_sound}
use cloudrail.Common.Table.Found.{find-delete, find-deleted, find-upsert-other, find-upserted}
use cloudrail.Common.Table.Writes.{exists-found}
use cloudrail.Common.Text.{Text, equals_sound}
use cloudrail.Deployment.Model.{Deployment, Service}
use cloudrail.Deployment.Settings.{public_http}
use cloudrail.Result.{Error, disk_failed}
use cloudrail.Routes.{
  Directory, Faults, RouteFile, clear_temp, content, file_of, put_route, remove_route, rename_route,
  route_file, route_of, set_service, wanted, with_content, write_route, failed_if, is_same,
}

route-deleted :
    (id : ℕ) (dir : Directory)
    → route_of id (record dir { routes = delete (file_of id) dir.routes }) ≡ none
unfolding route_of
route-deleted id dir = rw (find-deleted (file_of id) (file_of id) dir.routes (λ f h. h)) refl

route-absent :
    (id : ℕ) (dir : Directory) → exists (file_of id) dir.routes ≡ false → route_of id dir ≡ none
unfolding route_of
route-absent id dir h = elim (Option-cases (find (file_of id) dir.routes)) [
  | inl n ↦ rw n refl
  | inr (f, e) ↦ absurd (
      cc (
        h,
        exists-found (file_of id) (file_of id) dir.routes e (find_sound (file_of id) dir.routes e),
      ))
]

route-renamed :
    (id : ℕ) (body : Text) (dir : Directory) → route_of id (rename_route id body dir) ≡ some body
unfolding route_of rename_route
route-renamed id body dir =
    let (f, e, same) =
      find-upserted (λ f. f.1 ≡ body) (file_of id) (with_content body) (id, body) dir.routes
        (λ f h. h) (==_refl id) (λ f h. refl) refl in
    ap content e ∙ ap some same

other_file :
    (other id : ℕ) → ¬ (other ≡ id) → (f : ℕ × Text) → file_of other f ≡ true → file_of id f ≡ false
other_file other id k f h =
    subst (λ i. (i == id) ≡ false) (sym ((==_iff (f.0) other).0 h)) (==-apart k)

other-deleted :
    (id : ℕ) (dir : Directory) (other : ℕ)
    → ¬ (other ≡ id)
    → route_of other (record dir { routes = delete (file_of id) dir.routes }) ≡ route_of other dir
unfolding route_of
other-deleted id dir other k =
    ap content (find-delete (file_of other) (file_of id) dir.routes (other_file other id k))

other-renamed :
    (id : ℕ) (body : Text) (dir : Directory) (other : ℕ)
    → ¬ (other ≡ id)
    → route_of other (rename_route id body dir) ≡ route_of other dir
unfolding route_of rename_route
other-renamed id body dir other k = ap content (
    find-upsert-other (file_of other) (file_of id) (with_content body) (id, body) dir.routes
      (λ f. refl) (other_file other id k) (==-apart (λ e. k (sym e))))

-- `m` sets the file of one service: each other service's file is as it was, the service's own is the
-- old one or the new one, and the new one where no error is returned.
pub record IsPlaced (id : ℕ) (new : Option Text) (dir : Directory) (m : Option Error × Directory)
    : Type 0 where
  pub others : (other : ℕ) → ¬ (other ≡ id) → route_of other (m.1) ≡ route_of other dir
  pub whole : (route_of id (m.1) ≡ route_of id dir) ⊎ (route_of id (m.1) ≡ new)
  pub done : m.0 ≡ none → route_of id (m.1) ≡ new

unchanged-IsPlaced :
    (id : ℕ) (new : Option Text) (dir : Directory) (e : Error) → IsPlaced id new dir (some e, dir)
unchanged-IsPlaced id new dir e = record {
  others = λ o k. refl;
  whole = inl refl;
  done = λ h. absurd (cc);
}

removed-IsPlaced :
    (x : Faults) (id : ℕ) (dir : Directory) → IsPlaced id none dir (remove_route x id dir)
unfolding remove_route
removed-IsPlaced x id dir = elim (Bool-cases (exists (file_of id) dir.routes)) [
  | inr n ↦
      rw n (record { others = λ o k. refl; whole = inl refl; done = λ h. route-absent id dir n })
  | inl t ↦ elim (Bool-cases x.remove) [
    | inl u ↦ rw t (rw u (unchanged-IsPlaced id none dir disk_failed))
    | inr u ↦ rw t (
        rw u (record {
          others = λ o k. other-deleted id dir o k;
          whole = inr (route-deleted id dir);
          done = λ h. route-deleted id dir;
        }))
  ]
]

renamed-IsPlaced :
    (id : ℕ) (body : Text) (dir : Directory) (e : Option Error)
    → IsPlaced id (some body) dir (e, rename_route id body dir)
renamed-IsPlaced id body dir e = record {
  others = λ o k. other-renamed id body dir o k;
  whole = inr (route-renamed id body dir);
  done = λ h. route-renamed id body dir;
}

-- A temporary file that is left behind is no route.
cleared-IsPlaced :
    (x : Faults) (id : ℕ) (left body : Text) (dir : Directory)
    → IsPlaced id (some body) dir (some disk_failed, clear_temp x left dir)
unfolding clear_temp route_of
cleared-IsPlaced x id left body dir = elim (Bool-cases x.remove) [
  | inl t ↦ rw t (record { others = λ o k. refl; whole = inl refl; done = λ h. absurd (cc) })
  | inr t ↦ rw t (unchanged-IsPlaced id (some body) dir disk_failed)
]

written-IsPlaced :
    (x : Faults) (id : ℕ) (body : Text) (dir : Directory)
    → IsPlaced id (some body) dir (write_route x id body dir)
unfolding write_route
written-IsPlaced x id body dir = elim (Bool-cases x.create_temp) [
  | inl t ↦ rw t (unchanged-IsPlaced id (some body) dir disk_failed)
  | inr t ↦ elim (Option-cases x.write) [
    | inr (part, e) ↦ rw t (rw e (cleared-IsPlaced x id part body dir))
    | inl e ↦ elim (Bool-cases (x.sync || x.close || x.rename)) [
      | inl u ↦ rw t (rw e (rw u (cleared-IsPlaced x id body body dir)))
      | inr u ↦
          rw t (rw e (rw u (renamed-IsPlaced id body dir (failed_if (x.open_dir || x.sync_dir)))))
    ]
  ]
]

put-IsPlaced :
    (x : Faults) (id : ℕ) (body : Text) (dir : Directory)
    → IsPlaced id (some body) dir (put_route x id body dir)
unfolding put_route
put-IsPlaced x id body dir = elim (Bool-cases (is_same x.read body (route_of id dir))) [
  | inl t ↦ rw t (record {
    others = λ o k. refl;
    whole = inl refl;
    done = λ h. kept x.read (route_of id dir) t;
  })
  | inr t ↦ rw t (written-IsPlaced x id body dir)
]
  where
    kept : (unread : Bool) (r : Option Text) → is_same unread body r ≡ true → r ≡ some body
    kept unread none h = absurd (cc)
    kept unread (some old) h = ap some (equals_sound old body (and_right (not unread) _ h))

-- Whichever calls on the file system fail, Routes.Set leaves the files of all other services as they
-- were, and the service's own file is the old one or the complete new one, never a part of it or
-- none in its place; where no error is returned it is the new one, and there is none where the
-- service is to have no public route.
pub set_service-atomic :
    (encode : RouteFile → Text) (x : Faults) (https : Bool) (host : Text) (s : Service)
    (d : Option Deployment) (dir : Directory)
    → IsPlaced s.id (wanted encode https host s d) dir (set_service encode x https host s d dir)
unfolding set_service wanted
set_service-atomic encode x https host s none dir = elim (Bool-cases x.mkdir) [
  | inl t ↦ rw t (unchanged-IsPlaced s.id none dir disk_failed)
  | inr t ↦ rw t (removed-IsPlaced x s.id dir)
]
set_service-atomic encode x https host s (some d) dir = elim (Bool-cases (public_http s)) [
  | inl p ↦ elim (Bool-cases x.mkdir) [
    | inl t ↦ rw p (rw t (unchanged-IsPlaced s.id _ dir disk_failed))
    | inr t ↦ rw p (rw t (put-IsPlaced x s.id (encode (route_file https host s d)) dir))
  ]
  | inr p ↦ elim (Bool-cases x.mkdir) [
    | inl t ↦ rw p (rw t (unchanged-IsPlaced s.id _ dir disk_failed))
    | inr t ↦ rw p (rw t (removed-IsPlaced x s.id dir))
  ]
]
