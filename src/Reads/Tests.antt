-- ===== src/Reads/Tests.antt =====
-- The theorems about the pages' queries at a cashier and a courier.
use why_not_grace_pos.Prelude.{Bool, true, false, not, ◌||◌, ◌≡◌, refl, some, [], every}
use why_not_grace_pos.Access.{UserRole, owner, cash_counter, FeatureModule, same_role, is_visible}
use why_not_grace_pos.Reads.{customers_page, page_reads, home_reads, shell_reads}
use why_not_grace_pos.Reads.Backend.{may_read}
use why_not_grace_pos.Reads.Allowed.{page_reads-may_read, home_reads-may_read}

abbrev no_modules : FeatureModule → Bool
no_modules m = false

courier_refused :
    every (may_read UserRole.delivery no_modules) (home_reads [] (some "s1") UserRole.delivery)
    ≡ false
unfolding home_reads may_read
courier_refused = refl

page_reads-may_read_example :
    every
      (may_read cash_counter no_modules)
      (page_reads [] (some "c1") customers_page cash_counter no_modules)
    ≡ true
unfolding is_visible
page_reads-may_read_example =
    page_reads-may_read [] (some "c1") no_modules cash_counter customers_page refl

home_reads-may_read_example :
    (every (may_read UserRole.delivery no_modules) (home_reads [] (some "s1") UserRole.delivery)
      ≡ (not (same_role UserRole.delivery UserRole.delivery) || no_modules FeatureModule.delivery))
    × (every (may_read UserRole.delivery no_modules) shell_reads
        ≡ same_role UserRole.delivery owner)
home_reads-may_read_example = home_reads-may_read [] (some "s1") no_modules UserRole.delivery
