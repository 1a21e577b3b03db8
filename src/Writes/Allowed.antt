-- ===== src/Writes/Allowed.antt =====
-- What the pages offer to change against what the service lets their readers change.
use why_not_grace_pos.Prelude.{Bool, true, not, ◌||◌, some}
use why_not_grace_pos.Access.{UserRole, FeatureModule, online_payment}
use why_not_grace_pos.Progress.{can_bill}
use why_not_grace_pos.Reads.{Page, orders_page, tables_page, billing_page, is_service_counter}

-- The pages that offer more: the tables to the service counter, and online payment without its feature
-- where bills are shown.
abbrev pub is_open_to : Page → UserRole → (FeatureModule → Bool) → Bool
is_open_to tables_page role enabled = not (is_service_counter role)
is_open_to billing_page role enabled = enabled online_payment
is_open_to orders_page role enabled = not (can_bill (some role)) || enabled online_payment
is_open_to _ role enabled = true
