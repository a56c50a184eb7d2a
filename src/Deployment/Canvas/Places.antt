-- ===== src/Deployment/Canvas/Places.antt =====
-- The places that resources have before a user moves them.
use cloudrail.Common.{ap, arith, refl, sym, ℕ, ◌%◌, ◌*◌, ◌+◌, ◌/◌, ◌↔◌, ◌∙◌, ◌≡◌}
use cloudrail.Common.Int.{ℤ, pos}
use cloudrail.Deployment.Canvas.{CanvasKind, Position, default_position, row_offset}

-- the place of a resource on the grid of three columns, counted row by row: a database is a row lower
abbrev pub slot : ℕ → CanvasKind → ℕ
slot index CanvasKind.database = index + 3
slot index _ = index

pos-injective : {a b : ℕ} → pos a ≡ pos b → a ≡ b
pos-injective h = cc

-- a database is one row lower
abbrev rows : CanvasKind → ℕ
rows CanvasKind.database = 1
rows _ = 0

row_offset-rows : (k : CanvasKind) → row_offset k ≡ rows k * 190
row_offset-rows CanvasKind.service = refl
row_offset-rows CanvasKind.database = refl
row_offset-rows CanvasKind.volume = refl
row_offset-rows CanvasKind.bucket = refl

slot-rows : (i : ℕ) (k : CanvasKind) → slot i k ≡ i + rows k * 3
slot-rows i CanvasKind.service = omega arith
slot-rows i CanvasKind.database = omega arith
slot-rows i CanvasKind.volume = omega arith
slot-rows i CanvasKind.bucket = omega arith

same_slot :
    (i j a b c d : ℕ)
    → c ≡ a * 190
    → d ≡ b * 190
    → 90 + i % 3 * 310 ≡ 90 + j % 3 * 310
    → 100 + i / 3 * 190 + c ≡ 100 + j / 3 * 190 + d
    → i + a * 3 ≡ j + b * 3
same_slot i j a b c d p q h k = omega arith

same_place_x : (i j a b : ℕ) → i + a * 3 ≡ j + b * 3 → 90 + i % 3 * 310 ≡ 90 + j % 3 * 310
same_place_x i j a b h = omega arith

same_place_y :
    (i j a b c d : ℕ)
    → c ≡ a * 190
    → d ≡ b * 190
    → i + a * 3 ≡ j + b * 3
    → 100 + i / 3 * 190 + c ≡ 100 + j / 3 * 190 + d
same_place_y i j a b c d p q h = omega arith

-- Two resources have one default place just where their slots are the same; so a database's is that
-- of the third resource after it, where that is no database.
pub default_position-slots :
    (i j : ℕ) (k m : CanvasKind)
    → (default_position i k ≡ default_position j m) ↔ (slot i k ≡ slot j m)
unfolding default_position
default_position-slots i j k m = (
  λ h.
      slot-rows i k
      ∙ (same_slot i j (rows k) (rows m) (row_offset k) (row_offset m) (row_offset-rows k)
            (row_offset-rows m) (pos-injective (ap (λ p. p.x) h)) (pos-injective (ap (λ p. p.y) h))
          ∙ sym (slot-rows j m)),
  λ h.
      let e = sym (slot-rows i k) ∙ (h ∙ slot-rows j m) in
      at (ap pos (same_place_x i j (rows k) (rows m) e)) (
        ap pos (
          same_place_y i j (rows k) (rows m) (row_offset k) (row_offset m) (row_offset-rows k)
            (row_offset-rows m) e)),
)
  where
    at :
        {a b c d : ℤ}
        → a ≡ c
        → b ≡ d
        → ◌≡◌ {A = Position} (record { x = a; y = b }) (record { x = c; y = d })
    at p q = cc
