-- ===== src/Format/Tests.antt =====
-- The theorems about elapsed time at concrete times.
use why_not_grace_pos.Prelude.{◌-◌, ◌/◌}
use why_not_grace_pos.Format.{elapsed_since}
use why_not_grace_pos.Format.Rounding.{IsExactTo, elapsed_since-IsExactTo}

elapsed_since-IsExactTo_example :
    IsExactTo ((7_500_000 - 60_000) / 1000) (elapsed_since 7_500_000 60_000)
elapsed_since-IsExactTo_example = elapsed_since-IsExactTo 7_500_000 60_000
