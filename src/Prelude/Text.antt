-- ===== src/Prelude/Text.antt =====
-- Text as the client handles it: truthiness, `trim`, `length`, `includes`, template literals.
use Prim.Native.Nat.{ℕ, ◌+◌}
use Prim.Native.Char.{Char, code}
use Prim.Native.String.{String}
use mathlib.Core.Path.{◌≡◌, refl}
use mathlib.Core.Bool.{Bool, true, false, ◌&&◌, ◌||◌}
use mathlib.Core.Option.{Option, none, some}
use mathlib.Core.List.{List, [], ◌∷◌}
use why_not_grace_pos.Prelude.Tests.{leb, ltb, nat_eq, if◌then◌else◌}

-- The empty text is falsy, and so are `null` and `undefined`.
abbrev pub is_truthy : String → Bool
is_truthy String.[] = false
is_truthy (String.◌∷◌ c s) = true

abbrev pub is_set : Option String → Bool
is_set none = false
is_set (some s) = is_truthy s

-- `s || undefined` and `s || null`.
abbrev pub or_none : String → Option String
or_none s = if is_truthy s then some s else none

-- The white space and line ends that `trim` takes off.
unfoldable pub is_space : ℕ → Bool
is_space c =
    (leb 9 c && leb c 13)
    || nat_eq c 32
    || nat_eq c 0xa0
    || nat_eq c 0x1680
    || (leb 0x2000 c && leb c 0x200a)
    || nat_eq c 0x2028
    || nat_eq c 0x2029
    || nat_eq c 0x202f
    || nat_eq c 0x205f
    || nat_eq c 0x3000
    || nat_eq c 0xfeff

unfoldable pub trim_start : String → String
unfolding is_space
trim_start String.[] = String.[]
trim_start (String.◌∷◌ c s) = if is_space (code c) then trim_start s else String.◌∷◌ c s

-- A character stays if a character that is no space follows it, or if it is none itself.
trim_last : Char → String → String
unfolding is_space
trim_last c String.[] = if is_space (code c) then String.[] else String.◌∷◌ c String.[]
trim_last c (String.◌∷◌ d s) = String.◌∷◌ c (String.◌∷◌ d s)

unfoldable pub trim_end : String → String
unfolding trim_last
trim_end String.[] = String.[]
trim_end (String.◌∷◌ c s) = trim_last c (trim_end s)

unfoldable pub trim : String → String
unfolding trim_start trim_end
trim s = trim_end (trim_start s)

-- `length` counts UTF-16 units: two for a character above U+FFFF.
unfoldable pub text_length : String → ℕ
text_length String.[] = 0
text_length (String.◌∷◌ c s) = (if ltb (code c) 0x10000 then 1 else 2) + text_length s

unfoldable pub starts_with : String → String → Bool
starts_with s String.[] = true
starts_with String.[] (String.◌∷◌ d t) = false
starts_with (String.◌∷◌ c s) (String.◌∷◌ d t) = nat_eq (code c) (code d) && starts_with s t

-- `String.prototype.includes`.
unfoldable pub text_includes : String → String → Bool
unfolding starts_with
text_includes String.[] t = starts_with String.[] t
text_includes (String.◌∷◌ c s) t = starts_with (String.◌∷◌ c s) t || text_includes s t

unfoldable pub text_append : String → String → String
text_append String.[] t = t
text_append (String.◌∷◌ c s) t = String.◌∷◌ c (text_append s t)

-- `Array.prototype.join`.
unfoldable pub join : String → List String → String
unfolding text_append
join sep [] = ""
join sep (s ∷ []) = s
join sep (s ∷ t ∷ rest) = text_append s (text_append sep (join sep (t ∷ rest)))

-- A text that starts with no space is not blank.
trim_last-is_truthy :
    (c : Char) (s : String) → is_space (code c) ≡ false → is_truthy (trim_last c s) ≡ true
unfolding trim_last
trim_last-is_truthy c String.[] h = rw (h) refl
trim_last-is_truthy c (String.◌∷◌ d s) h = refl

pub trim-is_truthy :
    (c : Char) (s : String) → is_space (code c) ≡ false → is_truthy (trim (String.◌∷◌ c s)) ≡ true
unfolding trim trim_start trim_end
trim-is_truthy c s h = rw (h) (trim_last-is_truthy c (trim_end s) h)
