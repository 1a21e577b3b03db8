-- ===== src/Writes/Tests.antt =====
-- The theorem about the pages' changes at a waiter with the tables' page.
use why_not_grace_pos.Prelude.{Bool, false, some, ◌≡◌, refl, every}
use why_not_grace_pos.Access.{service_counter, FeatureModule}
use why_not_grace_pos.Reads.{tables_page}
use why_not_grace_pos.Writes.{page_writes}
use why_not_grace_pos.Writes.Backend.{may_write}

abbrev no_modules : FeatureModule → Bool
no_modules m = false

waiter_refused :
    every
      (may_write service_counter no_modules)
      (page_writes (some "t1") "{}" tables_page service_counter no_modules)
    ≡ false
unfolding page_writes may_write
waiter_refused = refl
