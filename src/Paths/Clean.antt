-- ===== src/Paths/Clean.antt =====
-- What `path.Clean` leaves in a path.
use cloudrail.Common.{◌≡◌, true, false, List, [], ◌∷◌, arith, All}
use cloudrail.Common.Text.{Text, equals}
use cloudrail.Paths.{push_part, resolve, dot_dot}

abbrev NotUp : Text → Type 0
NotUp p = equals p dot_dot ≡ false

push_part-NotUp :
    (stack : List Text) (p : Text) → All NotUp stack → All NotUp (push_part true stack p)
unfolding push_part
push_part-NotUp [] p h = ground arith
push_part-NotUp (t ∷ s) p h = ground arith

-- Cleaning a rooted path leaves no `..` in it.
pub resolve-NotUp : (stack ps : List Text) → All NotUp stack → All NotUp (resolve true stack ps)
unfolding resolve
resolve-NotUp stack [] h = h
resolve-NotUp stack (p ∷ ps) h =
    resolve-NotUp (push_part true stack p) ps (push_part-NotUp stack p h)
