-- ===== src/Common/Utf8.antt =====
-- strings.ToValidUTF8(s, "") on the bytes of a text.
use Prim.Native.Nat.{ℕ, zero, suc, ◌≤◌}
use mathlib.Core.Bool.{Bool, true, false, ◌&&◌}
use mathlib.Core.List.{[], ◌∷◌}
use native.Mathlib.Omega.{arith}
use cloudrail.Common.Tests.{◌==◌, leb, ltb, if◌then◌else◌}
use cloudrail.Common.Lists.{length}
use cloudrail.Common.Text.{Text}

abbrev in_range : ℕ → ℕ → ℕ → Bool
in_range lo hi c = leb lo c && leb c hi

-- the least and the greatest second byte after a first one
abbrev second_low : ℕ → ℕ
second_low c = if c == 0xE0 then 0xA0 else if c == 0xF0 then 0x90 else 0x80

abbrev second_high : ℕ → ℕ
second_high c = if c == 0xED then 0x9F else if c == 0xF4 then 0x8F else 0xBF

abbrev tail_byte : ℕ → Bool
tail_byte c = in_range 0x80 0xBF c

-- the bytes after the first one of the encoded character in front, if there is one
unfoldable pub rune_rest : ℕ → Text → Bool × ℕ
rune_rest c [] = (ltb c 0x80, 0)
rune_rest c (d ∷ []) = if ltb c 0x80 then (true, 0) else (in_range 0xC2 0xDF c && tail_byte d, 1)
rune_rest c (d ∷ (e ∷ [])) =
    if ltb c 0x80
    then (true, 0)
    else if in_range 0xC2 0xDF c
    then (tail_byte d, 1)
    else (in_range 0xE0 0xEF c && in_range (second_low c) (second_high c) d && tail_byte e, 2)
rune_rest c (d ∷ (e ∷ (f ∷ s))) =
    if ltb c 0x80
    then (true, 0)
    else if in_range 0xC2 0xDF c
    then (tail_byte d, 1)
    else if in_range 0xE0 0xEF c
    then (in_range (second_low c) (second_high c) d && tail_byte e, 2)
    else (
      in_range 0xF0 0xF4 c
          && in_range (second_low c) (second_high c) d
          && tail_byte e
          && tail_byte f,
      3,
    )

-- `keep` counts the bytes of a character that is being copied
unfoldable pub valid_from : ℕ → Text → Text
unfolding rune_rest
valid_from keep [] = []
valid_from (suc keep) (c ∷ s) = c ∷ valid_from keep s
valid_from zero (c ∷ s) =
    let (fine, more) = rune_rest c s in
    let rest = valid_from (if fine then more else 0) s in if fine then c ∷ rest else rest

unfoldable pub to_valid_utf8 : Text → Text
unfolding valid_from
to_valid_utf8 s = valid_from 0 s

kept :
    (fine : Bool) (c : ℕ) (s r : Text)
    → length r ≤ length s
    → length (if fine then c ∷ r else r) ≤ suc (length s)
kept true c s r h = omega arith
kept false c s r h = omega arith

length-valid_from : (keep : ℕ) (s : Text) → length (valid_from keep s) ≤ length s
unfolding valid_from
length-valid_from zero [] = omega arith
length-valid_from (suc keep) [] = omega arith
length-valid_from (suc keep) (c ∷ s) = omega (arith, length-valid_from keep s)
length-valid_from zero (c ∷ s) =
    let (fine, more) = rune_rest c s in
    kept fine c s (valid_from (if fine then more else 0) s)
      (length-valid_from (if fine then more else 0) s)

pub length-to_valid_utf8 : (s : Text) → length (to_valid_utf8 s) ≤ length s
unfolding to_valid_utf8
length-to_valid_utf8 s = length-valid_from 0 s
