-- ===== src/Format.antt =====
-- Elapsed time and trends: frontend/src/lib/format.ts. Times are whole milliseconds, as Date.now() gives
-- them, so that a floor is a division and `Math.max(0, …)` of a difference is one that stops at 0.
pub mod Rounding
mod Tests
use why_not_grace_pos.Prelude.{
  ℕ, ◌-◌, ◌/◌, Bool, true, false, Option, none, some, Number, ltb, if◌then◌else◌,
}

unfoldable pub minutes_since : ℕ → ℕ → ℕ
minutes_since now since = (now - since) / 60000

pub data TimeUnit : Type 0 where
  now seconds minutes hours : TimeUnit

pub record Elapsed : Type 0 where
  pub unit : TimeUnit
  pub count : ℕ

-- `elapsedSince`, of the seconds and then of the minutes.
unfoldable pub elapsed_of_minutes : ℕ → Elapsed
elapsed_of_minutes m =
    if ltb m 60
    then record { unit = minutes; count = m }
    else record { unit = hours; count = m / 60 }

unfoldable pub elapsed_of_seconds : ℕ → Elapsed
unfolding elapsed_of_minutes
elapsed_of_seconds s =
    if ltb s 5
    then record { unit = now; count = 0 }
    else if ltb s 60
    then record { unit = seconds; count = s }
    else elapsed_of_minutes (s / 60)

unfoldable pub elapsed_since : ℕ → ℕ → Elapsed
unfolding elapsed_of_seconds
elapsed_since at since = elapsed_of_seconds ((at - since) / 1000)

pub data Direction : Type 0 where
  up down flat : Direction

pub record Trend {ℓ} (N : Type ℓ) : Type ℓ where
  pub direction : Direction
  pub percent : Option N

module _ {ℓ} {N : Type ℓ} ⦃n : Number N⦄ where
  -- `Math.abs`.
  abbrev pub absolute : N → N
  absolute x = if n.lt x (n.of_ℕ 0) then n.sub (n.of_ℕ 0) x else x

  unfoldable pub compute_trend : N → N → Trend N
  compute_trend current previous =
      if n.same current previous
      then record {
        direction = flat;
        percent = if n.same previous (n.of_ℕ 0) then none else some (n.of_ℕ 0);
      }
      else if n.same previous (n.of_ℕ 0)
      then record { direction = up; percent = none }
      else let percent : N = n.mul (n.div (n.sub current previous) previous) (n.of_ℕ 100) in
        record {
          direction = if n.lt (n.of_ℕ 0) percent then up else down;
          percent = some (absolute (n.round percent));
        }
