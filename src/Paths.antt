-- ===== src/Paths.antt =====
-- The standard library's `path.Clean` and `path.Base` on slash-separated paths, as the packages
-- deployment, builds and docker call them.
pub mod Clean
use cloudrail.Common.{
  ℕ, zero, suc, ◌≡◌, refl, Bool, true, false, ◌&&◌, List, [], ◌∷◌, ◌++◌, reverse, if◌then◌else◌,
  ◌==◌,
}
use cloudrail.Common.Text.{Text, bytes, equals, is_empty}

-- the parts between the slashes, the part being read in reverse
unfoldable pub split_from : Text → Text → List Text
split_from cur [] = reverse cur ∷ []
split_from cur (c ∷ s) =
    let closed = reverse cur ∷ split_from [] s in
    let longer = split_from (c ∷ cur) s in if c == b'/' then closed else longer

unfoldable pub split_slash : Text → List Text
unfolding split_from
split_slash s = split_from [] s

unfoldable pub dot : Text
dot = b'.' ∷ []

unfoldable pub dot_dot : Text
dot_dot = b'.' ∷ b'.' ∷ []

-- One part of the path; the stack has the last part kept at its head. `..` removes a part, and
-- stays where there is none to remove, but not above the root.
unfoldable pub push_part : Bool → List Text → Text → List Text
unfolding dot dot_dot
push_part rooted [] part =
    if is_empty part
    then []
    else if equals part dot
    then []
    else if equals part dot_dot
    then (if rooted then [] else dot_dot ∷ [])
    else part ∷ []
push_part rooted (top ∷ stack) part =
    if is_empty part
    then top ∷ stack
    else if equals part dot
    then top ∷ stack
    else if equals part dot_dot
    then (if equals top dot_dot then dot_dot ∷ top ∷ stack else stack)
    else part ∷ top ∷ stack

unfoldable pub resolve : Bool → List Text → List Text → List Text
unfolding push_part
resolve rooted stack [] = stack
resolve rooted stack (p ∷ ps) = resolve rooted (push_part rooted stack p) ps

unfoldable pub join : List Text → Text
join [] = []
join (p ∷ []) = p
join (p ∷ (q ∷ ps)) = p ++ (b'/' ∷ join (q ∷ ps))

abbrev pub is_rooted : Text → Bool
is_rooted [] = false
is_rooted (c ∷ _) = c == b'/'

-- the kept parts of a path, first part first
unfoldable pub parts_of : Text → List Text
unfolding resolve split_slash
parts_of s = reverse (resolve (is_rooted s) [] (split_slash s))

abbrev or_dot : Text → Text
or_dot [] = b'.' ∷ []
or_dot (c ∷ s) = c ∷ s

-- path.Clean(s)
unfoldable pub clean : Text → Text
unfolding parts_of join
clean s = if is_rooted s then b'/' ∷ join (parts_of s) else or_dot (join (parts_of s))
