-- ===== src/Format/Rounding.antt =====
-- How exact the shown time is.
use why_not_grace_pos.Prelude.{ℕ, ◌+◌, ◌*◌, ◌-◌, ◌/◌, ◌≤◌, ◌<◌, ◌≡◌, ◌↔◌, arith}
use why_not_grace_pos.Kitchen.{danger, warning, age_tone}
use why_not_grace_pos.Format.{
  TimeUnit, now, seconds, minutes, hours, Elapsed, elapsed_of_minutes, elapsed_of_seconds,
  elapsed_since, minutes_since,
}

-- The seconds in a unit; "now" stands for five.
abbrev pub unit_seconds : TimeUnit → ℕ
unit_seconds now = 5
unit_seconds seconds = 1
unit_seconds minutes = 60
unit_seconds hours = 3600

-- The least and, for all but hours, the greatest count of a unit.
abbrev pub IsCount : TimeUnit → ℕ → Type 0
IsCount now c = c ≡ 0
IsCount seconds c = (5 ≤ c) × (c < 60)
IsCount minutes c = (1 ≤ c) × (c < 60)
IsCount hours c = 1 ≤ c

abbrev pub IsExactTo : ℕ → Elapsed → Type 0
IsExactTo s e =
    IsCount e.unit e.count
    × (e.count * unit_seconds e.unit ≤ s)
    × (s < (e.count + 1) * unit_seconds e.unit)

elapsed_of_seconds-IsExactTo : (s : ℕ) → IsExactTo s (elapsed_of_seconds s)
unfolding elapsed_of_seconds elapsed_of_minutes
elapsed_of_seconds-IsExactTo s = ground arith

-- The shown time is the elapsed time rounded down to a whole number of its unit, with 5 to 59 seconds, 1
-- to 59 minutes and at least one hour; less than five seconds, and a time that is still to come, is
-- "now".
pub elapsed_since-IsExactTo :
    (at since : ℕ) → IsExactTo ((at - since) / 1000) (elapsed_since at since)
unfolding elapsed_since
elapsed_since-IsExactTo at since = elapsed_of_seconds-IsExactTo ((at - since) / 1000)

-- A ticket is shown red exactly when it is at least a quarter of an hour old, and in amber exactly when
-- it is younger than that and at least eight minutes old.
pub age_tone-minutes_since :
    (at since : ℕ)
    → ((age_tone (minutes_since at since) ≡ danger) ↔ (900000 ≤ at - since))
      × ((age_tone (minutes_since at since) ≡ warning)
          ↔ ((480000 ≤ at - since) × (at - since < 900000)))
unfolding age_tone minutes_since
age_tone-minutes_since at since = ground arith
