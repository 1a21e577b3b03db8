-- ===== src/Queries/Keys.antt =====
-- The call that a key of the cache stands for, read back from the key alone; the keys are those of the
-- hooks in frontend/src/features.
use why_not_grace_pos.Prelude.{String, Option, none, some, [], ◌∷◌, ◌==◌, if◌then◌else◌}
use why_not_grace_pos.Api.Calls.{Call}
use why_not_grace_pos.Api.Orders
use why_not_grace_pos.Api.Bills
use why_not_grace_pos.Api.Kots
use why_not_grace_pos.Api.Service
use why_not_grace_pos.Api.Deliveries
use why_not_grace_pos.Api.Tables
use why_not_grace_pos.Api.Rooms
use why_not_grace_pos.Api.Shifts
use why_not_grace_pos.Api.Features
use why_not_grace_pos.Api.Settings
use why_not_grace_pos.Api.Charges
use why_not_grace_pos.Api.Toggles
use why_not_grace_pos.Api.Loyalty
use why_not_grace_pos.Api.Customers
use why_not_grace_pos.Api.Staff
use why_not_grace_pos.Api.Pricing
use why_not_grace_pos.Api.Notifications
use why_not_grace_pos.Api.Office
use why_not_grace_pos.Api.Reports
use why_not_grace_pos.Api.Businesses
use why_not_grace_pos.Api.Categories
use why_not_grace_pos.Api.Items
use why_not_grace_pos.Api.Accounts
use why_not_grace_pos.Api.Guests
use why_not_grace_pos.Api.Websites
use why_not_grace_pos.Api.Integrations
use why_not_grace_pos.Api.Subscriptions
use why_not_grace_pos.Api.Audit
use why_not_grace_pos.Api.PlatformBusinesses
use why_not_grace_pos.Api.PlatformPlans
use why_not_grace_pos.Queries.Options.{Part, name, nothing, number, params, Key, text_of, filter_by}

-- The id that a part of a key was made from.
abbrev pub id_of : Part → Option String
id_of (name s) = some s
id_of nothing = none
id_of (number s) = some s
id_of (params ps) = none

-- The filter that `or_all` was made from.
abbrev filter_of : Part → Option String
filter_of (name s) = if s == "all" then none else some s
filter_of nothing = none
filter_of (number s) = none
filter_of (params ps) = none

-- Keys of one part.
abbrev call_of_word : String → Option Call
call_of_word w =
    if w == "tables"
    then some Tables.list
    else if w == "rooms"
    then some Rooms.list
    else if w == "shift-current"
    then some Shifts.current
    else if w == "shifts"
    then some Shifts.list
    else if w == "feature-flags"
    then some Features.list
    else if w == "business-settings"
    then some Settings.fetch
    else if w == "charge-bands"
    then some Charges.list_bands
    else if w == "toggles"
    then some Toggles.list
    else if w == "invoice-series"
    then some Toggles.invoice_series
    else if w == "customers"
    then some Customers.list
    else if w == "staff"
    then some Staff.list
    else if w == "notifications"
    then some Notifications.list
    else if w == "dashboard"
    then some Office.dashboard
    else if w == "categories"
    then some Categories.list
    else if w == "menu-items"
    then some (Items.list [])
    else if w == "integrations"
    then some Integrations.list
    else if w == "subscription"
    then some Subscriptions.fetch
    else none

-- Keys of two words.
abbrev call_of_words : String → String → Option Call
call_of_words w v =
    if w == "billing"
    then (if v == "unbilled-orders"
        then some Bills.unbilled_orders
        else some (Bills.fetch (some v)))
    else if w == "kitchen"
    then (if v == "queue" then some Service.queue else some Service.ready)
    else if w == "delivery"
    then some Deliveries.list_orders
    else if w == "loyalty"
    then some Loyalty.list_rules
    else if w == "business"
    then some Businesses.fetch_mine
    else if w == "auth"
    then some Accounts.me
    else if w == "platform"
    then some PlatformBusinesses.list
    else none

-- Keys of a word and an id.
abbrev call_of_id : String → Part → Option Call
call_of_id w p =
    if w == "shift-report"
    then some (Shifts.report (id_of p))
    else if w == "pricing-rules"
    then some (Pricing.list_rules (filter_by "item_id" (filter_of p)))
    else if w == "menu-item-translations"
    then some (Items.list_translations (id_of p))
    else if w == "menu-category-translations"
    then some (Categories.list_translations (id_of p))
    else none

abbrev or_else : Option Call → Option Call → Option Call
or_else none c = c
or_else (some c) d = some c

-- Keys of two parts.
abbrev call_of_pair : String → Part → Option Call
call_of_pair w (params ps) = if w == "orders" then some (Orders.list ps) else some (Kots.list ps)
call_of_pair w nothing = if w == "billing" then some (Bills.fetch none) else call_of_id w nothing
call_of_pair w (name v) = or_else (call_of_id w (name v)) (call_of_words w v)
call_of_pair w (number v) = none

-- The reports, whose keys end in their parameters.
abbrev call_of_report : String → Part → Option Call
call_of_report w (params ps) =
    if w == "sales"
    then some (Reports.sales ps)
    else if w == "orders"
    then some (Reports.orders ps)
    else if w == "payments"
    then some (Reports.payments ps)
    else if w == "top-items"
    then some (Reports.top_items ps)
    else if w == "categories"
    then some (Reports.categories ps)
    else some (Reports.channels ps)
call_of_report w _ = none

-- The platform's pages about one business.
abbrev call_of_platform : String → Part → Option Call
call_of_platform w p =
    if w == "businesses"
    then some (PlatformBusinesses.fetch (id_of p))
    else if w == "features"
    then some (PlatformBusinesses.list_features (id_of p))
    else if w == "toggles"
    then some (PlatformBusinesses.list_toggles (id_of p))
    else if w == "subscription"
    then some (PlatformPlans.fetch (id_of p))
    else some (PlatformBusinesses.fetch_website (id_of p))

-- Keys of three parts.
abbrev call_of_three : String → Part → Part → Option Call
call_of_three w (name v) p =
    if w == "orders"
    then some (Orders.fetch (id_of p))
    else if w == "charge-preview"
    then some (Charges.preview (some v) (id_of p))
    else if w == "loyalty"
    then (if v == "account"
        then some (Loyalty.fetch_account (id_of p))
        else some (Loyalty.list_rewards (id_of p)))
    else if w == "reports"
    then call_of_report v p
    else if w == "website"
    then some (Websites.fetch_site (id_of p))
    else if w == "admin"
    then some (Audit.list_logs (filter_by "action" (filter_of p)))
    else call_of_platform v p
call_of_three w nothing p = some (Charges.preview none (id_of p))
call_of_three w (number v) p = some (Charges.preview (some v) (id_of p))
call_of_three w (params ps) p = none

-- Keys of four parts: the guest's.
abbrev call_of_guest : String → Option String → Part → Option Call
call_of_guest v token p =
    if v == "order-status"
    then some (Guests.fetch_order_status (text_of token) (id_of p))
    else some (Guests.fetch_menu (text_of token) (text_of (id_of p)))

-- The call that a key stands for.
abbrev pub call_at : Key → Option Call
call_at (name w ∷ []) = call_of_word w
call_at (name w ∷ p ∷ []) = call_of_pair w p
call_at (name w ∷ p ∷ q ∷ []) = call_of_three w p q
call_at (name w ∷ name v ∷ p ∷ q ∷ []) = call_of_guest v (id_of p) q
call_at (name w ∷ v ∷ p ∷ m ∷ q ∷ []) = some (Websites.fetch_menu (id_of p) (text_of (id_of q)))
call_at _ = none
