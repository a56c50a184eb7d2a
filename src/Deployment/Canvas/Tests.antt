-- ===== src/Deployment/Canvas/Tests.antt =====
-- The theorems on the canvas at a concrete environment.
use cloudrail.Common.{All, List, [], false, length, refl, some, ◌↔◌, ◌∷◌, ◌≡◌, ◌≤◌}
use cloudrail.Common.Int.{negsuc, pos}
use cloudrail.Common.Table.{exists, select}
use cloudrail.Common.Table.Writes.{upsert}
use cloudrail.Deployment.Canvas.{
  CanvasDb, CanvasKind, Position, PositionUpdate, ResourceKey, canvas, check_updates,
  default_position, is_outside, items, of_service, place, same_resource, save_layout,
  saved_position, write_updates,
}
use cloudrail.Deployment.Canvas.Layouts.{IsPlaceable, save_layout-saved}
use cloudrail.Deployment.Canvas.Places.{slot, default_position-slots}
use cloudrail.Result.{ok}
use cloudrail.Tests.{store}

abbrev drawn : CanvasDb
drawn = record {
  workspace = record { main = store; variables = []; references = []; buckets = []; bindings = [] };
  environments = (1, "production") ∷ [];
  layouts = [];
}

abbrev middle : Position
middle = record { x = pos 40; y = negsuc 9 }

abbrev updates : List PositionUpdate
updates = record { key = of_service 1; position = middle } ∷ []

abbrev placed : CanvasDb
placed = record drawn {
  layouts =
      record { project = 1; environment = "production"; key = of_service 1; position = middle }
      ∷ [];
}

save_accepted : save_layout 1 "production" updates drawn ≡ ok placed
unfolding save_layout canvas exists check_updates place items select same_resource is_outside
    write_updates upsert
save_accepted = refl

save_layout-saved_example :
    (1 ≤ length updates)
    × (length updates ≤ 200)
    × All
        (λ u.
          (saved_position 1 "production" u.key placed.layouts ≡ some u.position)
          × IsPlaceable
              (place 1 "production" drawn.layouts 0 (items 1 "production" drawn.workspace))
              u)
        updates
    × ((key : ResourceKey)
        → All (λ u. same_resource u.key key ≡ false) updates
        → saved_position 1 "production" key placed.layouts
          ≡ saved_position 1 "production" key drawn.layouts)
save_layout-saved_example = save_layout-saved 1 "production" updates drawn save_accepted

default_position-slots_example :
    (default_position 0 CanvasKind.database ≡ default_position 3 CanvasKind.volume)
    ↔ (slot 0 CanvasKind.database ≡ slot 3 CanvasKind.volume)
default_position-slots_example = default_position-slots 0 3 CanvasKind.database CanvasKind.volume
