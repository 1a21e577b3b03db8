-- ===== src/Prelude/Tallies.antt =====
-- A way to write whole numbers, for the places where the language's own conversions are arguments.
use Prim.Native.Nat.{ℕ, zero, suc}
use Prim.Native.String.{String}
use mathlib.Core.Path.{◌≡◌, refl, ap}
use mathlib.Core.Bool.{true}
use why_not_grace_pos.Prelude.Text.{is_space, is_truthy, trim, text_append, trim-is_truthy}

-- Whole numbers as tallies, one stroke more than the number.
abbrev pub tally_text : ℕ → String
tally_text zero = "|"
tally_text (suc n) = text_append "|" (tally_text n)

abbrev strokes : String → ℕ
strokes String.[] = 0
strokes (String.◌∷◌ c s) = suc (strokes s)

abbrev less_1 : ℕ → ℕ
less_1 zero = 0
less_1 (suc n) = n

abbrev pub tally_of : String → ℕ
tally_of s = less_1 (strokes s)

strokes-tally_text : (n : ℕ) → strokes (tally_text n) ≡ suc n
unfolding text_append
strokes-tally_text zero = refl
strokes-tally_text (suc n) = ap suc (strokes-tally_text n)

pub tally_of-tally_text : (n : ℕ) → tally_of (tally_text n) ≡ n
tally_of-tally_text n = ap less_1 (strokes-tally_text n)

pub tally_text-is_truthy : (n : ℕ) → is_truthy (trim (tally_text n)) ≡ true
unfolding text_append is_space
tally_text-is_truthy zero = trim-is_truthy _ _ refl
tally_text-is_truthy (suc n) = trim-is_truthy _ (tally_text n) refl
