-- ===== src/Deployment/Canvas.antt =====
-- deployment/canvas.go: the picture of an environment's resources and of what connects them, and the
-- places that a user gave them. The rows of a table are read in the order of their creation, which
-- is that of the list. The fields that are copied from a row for display alone are left out.
pub mod Layouts
pub mod Places
pub mod Tests
mod Resources
use text.Mathlib.Text.{◌==◌ as str_eq}
use cloudrail.Common.{
  Bool, List, Option, String, [], any, false, if◌then◌else◌, is_some, leb, length, ltb, map, none,
  not, some, suc, ℕ, ◌%◌, ◌&&◌, ◌*◌, ◌++◌, ◌+◌, ◌/◌, ◌==◌, ◌||◌, ◌∷◌,
}
use cloudrail.Common.Int.{negsuc, ℤ, pos}
use cloudrail.Common.Table.{exists, find, first_by, select}
use cloudrail.Common.Table.Writes.{upsert}
use cloudrail.Common.Text.{Text, bytes, equals}
use cloudrail.Deployment.Model.{
  Attachment, Db, Deployment, DesiredState, ResourceKind, Service, Status, Volume, active, terminal,
}
use cloudrail.Deployment.Variables.{Binding, Bucket, Reference, Workspace}
use cloudrail.Deployment.Volumes.{of_volume}
use cloudrail.Result.{Result, invalid_layout, no_rows, ok, refuse, require, ◌>>=◌, ◌>>◌}
unfoldable pub use Resources.*

abbrev pub is_environment : ℕ → String → ℕ × String → Bool
is_environment project environment e = e.0 == project && str_eq (e.1) environment

-- Store.Canvas
unfoldable pub canvas : ℕ → String → CanvasDb → Result (List Resource × List Link)
unfolding place items links_of
canvas project environment db = do
  require (exists (is_environment project environment) db.environments) no_rows
  ok (
    place project environment db.layouts 0 (items project environment db.workspace),
    links_of project environment db.workspace,
  )

pub record PositionUpdate : Type 0 where
  pub key : ResourceKey
  pub position : Position

-- x < -100000 || x > 100000
unfoldable pub is_outside : ℤ → Bool
is_outside (pos a) = ltb 100000 a
is_outside (negsuc a) = leb 100000 a

abbrev has_key : ResourceKey → Resource → Bool
has_key key r = same_resource r.item.key key

-- the loop over the updates, which are for known and different resources
unfoldable pub check_updates :
    List Resource → List ResourceKey → List PositionUpdate → Result (Unit {0})
unfolding same_resource is_outside
check_updates rs seen [] = ok tt
check_updates rs seen (u ∷ us) = do
  refuse
      (not (exists (has_key u.key) rs)
        || any (λ k. same_resource k u.key) seen
        || is_outside u.position.x
        || is_outside u.position.y)
      invalid_layout
  check_updates rs (u.key ∷ seen) us

abbrev moved_to : Position → Layout → Layout
moved_to p l = record l { position = p }

-- the upserts of SaveCanvasLayout
unfoldable pub write_updates : ℕ → String → List PositionUpdate → List Layout → List Layout
write_updates project environment [] ls = ls
write_updates project environment (u ∷ us) ls = write_updates project environment us (
    upsert (layout_at project environment u.key) (moved_to u.position)
      (record { project = project; environment = environment; key = u.key; position = u.position })
      ls)

-- SaveCanvasLayout
unfoldable pub save_layout : ℕ → String → List PositionUpdate → CanvasDb → Result CanvasDb
unfolding canvas check_updates write_updates
save_layout project environment us db = do
  refuse (length us == 0 || ltb 200 (length us)) invalid_layout
  graph ← canvas project environment db
  check_updates (graph.0) [] us
  ok (record db { layouts = write_updates project environment us db.layouts })
