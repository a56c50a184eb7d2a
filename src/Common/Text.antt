-- ===== src/Common/Text.antt =====
-- Go strings whose bytes the program walks, as lists of bytes, and the functions of the package
-- `strings` that it calls on them.
use Prim.Native.Nat.{ℕ, zero, suc, ◌+◌, ◌-◌, ◌≤◌}
use Prim.Native.Char.{code}
use Prim.Native.String.{String}
use mathlib.Core.Path.{◌≡◌, refl}
use mathlib.Core.Bool.{Bool, true, false, ◌&&◌, ◌||◌}
use mathlib.Core.List.{List, [], ◌∷◌, ◌++◌, reverse}
use native.Mathlib.Omega.{arith}
use cloudrail.Common.Tests.{◌==◌, leb, ltb, if◌then◌else◌}
use cloudrail.Common.Lists.{any, length, take, drop, length-drop, length-take-le}

abbrev pub Text : Type 0
Text = List ℕ

-- The bytes of an ASCII literal.
abbrev pub bytes : String → Text
bytes String.[] = []
bytes (String.◌∷◌ c s) = code c ∷ bytes s

-- s == t
unfoldable pub equals : Text → Text → Bool
equals [] [] = true
equals [] (d ∷ t) = false
equals (c ∷ s) [] = false
equals (c ∷ s) (d ∷ t) = let rest = equals s t in c == d && rest

pub equals_sound : (s t : Text) → equals s t ≡ true → s ≡ t
unfolding equals
equals_sound [] [] h = refl
equals_sound [] (d ∷ t) h = cc
equals_sound (c ∷ s) [] h = cc
equals_sound (c ∷ s) (d ∷ t) h = ground (arith, equals_sound s t)

pub equals_refl : (s : Text) → equals s s ≡ true
unfolding equals
equals_refl [] = refl
equals_refl (c ∷ s) = ground (arith, equals_refl s)

-- s == ""
abbrev pub is_empty : Text → Bool
is_empty [] = true
is_empty (_ ∷ _) = false

-- strings.HasPrefix(s, p)
unfoldable pub has_prefix : Text → Text → Bool
has_prefix s [] = true
has_prefix [] (d ∷ p) = false
has_prefix (c ∷ s) (d ∷ p) = let rest = has_prefix s p in c == d && rest

-- strings.HasSuffix(s, p)
unfoldable pub has_suffix : Text → Text → Bool
unfolding has_prefix
has_suffix s p = has_prefix (reverse s) (reverse p)

-- strings.ContainsAny(s, chars)
unfoldable pub contains_any : Text → Text → Bool
contains_any s chars = any (λ c. any (λ d. c == d) chars) s

-- The bytes that strings.TrimSpace removes, of those below 128.
unfoldable pub is_space : ℕ → Bool
is_space c = c == 32 || (leb 9 c && leb c 13)

unfoldable pub trim_left : (ℕ → Bool) → Text → Text
trim_left p [] = []
trim_left p (c ∷ s) = let rest = trim_left p s in if p c then rest else c ∷ s

-- strings.TrimSpace(s) and strings.Trim(s, cut)
unfoldable pub trim : (ℕ → Bool) → Text → Text
unfolding trim_left
trim p s = reverse (trim_left p (reverse (trim_left p s)))

-- strings.TrimRight(s, cut)
unfoldable pub trim_right : (ℕ → Bool) → Text → Text
unfolding trim_left
trim_right p s = reverse (trim_left p (reverse s))

-- strings.TrimSuffix(s, string(c)), for one byte
unfoldable pub trim_suffix_byte : ℕ → Text → Text
trim_suffix_byte c [] = []
trim_suffix_byte c (d ∷ []) = if d == c then [] else d ∷ []
trim_suffix_byte c (d ∷ (e ∷ s)) = d ∷ trim_suffix_byte c (e ∷ s)

-- s[len(s)-n:] where len(s) > n, else s
unfoldable pub last_bytes : ℕ → Text → Text
last_bytes n s = if ltb n (length s) then drop (length s - n) s else s

-- s[:n] where len(s) > n, else s
unfoldable pub first_bytes : ℕ → Text → Text
first_bytes n s = if ltb n (length s) then take n s else s

-- strings.ReplaceAll(s, old, new) for a non-empty `old`, on fuel: each round takes a byte or more.
unfoldable pub replace_fuel : ℕ → Text → Text → Text → Text
unfolding has_prefix
replace_fuel zero old new s = s
replace_fuel (suc f) old new [] = []
replace_fuel (suc f) old new (c ∷ s) =
    let skip = new ++ replace_fuel f old new (drop (length old) (c ∷ s)) in
    let keep = c ∷ replace_fuel f old new s in if has_prefix (c ∷ s) old then skip else keep

unfoldable pub replace_all : Text → Text → Text → Text
unfolding replace_fuel
replace_all s old new = replace_fuel (length s) old new s

-- strings.ToLower on ASCII letters
unfoldable pub to_lower : ℕ → ℕ
to_lower c = if leb b'A' c && leb c b'Z' then c + 32 else c

-- strings.ToUpper on ASCII letters
unfoldable pub to_upper : ℕ → ℕ
to_upper c = if leb b'a' c && leb c b'z' then c - 32 else c

unfoldable pub is_digit : ℕ → Bool
is_digit c = leb b'0' c && leb c b'9'

unfoldable pub is_lower : ℕ → Bool
is_lower c = leb b'a' c && leb c b'z'

unfoldable pub is_upper : ℕ → Bool
is_upper c = leb b'A' c && leb c b'Z'

unfoldable pub is_alphanumeric : ℕ → Bool
unfolding is_digit is_lower is_upper
is_alphanumeric c = is_lower c || is_upper c || is_digit c

pub length-last_bytes : (n : ℕ) (s : Text) → length (last_bytes n s) ≤ n
unfolding last_bytes
length-last_bytes n s = ground (arith, length-drop {0} (length s - n) s)

pub length-first_bytes : (n : ℕ) (s : Text) → length (first_bytes n s) ≤ n
unfolding first_bytes
length-first_bytes n s = ground (arith, length-take-le {0} n s)

pub has_prefix_sound : (s p : Text) → has_prefix s p ≡ true → (t : Text) × (s ≡ p ++ t)
unfolding has_prefix
has_prefix_sound s [] h = (s, refl)
has_prefix_sound [] (d ∷ p) h = absurd (cc)
has_prefix_sound (c ∷ s) (d ∷ p) h =
    let (t, e) = has_prefix_sound s p (ground arith) in (t, ground arith)
