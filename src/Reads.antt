-- ===== src/Reads.antt =====
-- What the pages of the staff read: the queries of the page components of frontend/src/features that
-- frontend/src/App.tsx routes to and the sidebar lists, with those of the dialogs, sections and cards
-- on them, and of the shell around them, frontend/src/components/shell. The profile page is left. Of a filter and an id there is one, which stands for any.
pub mod Backend
pub mod Allowed
mod Tests
use why_not_grace_pos.Prelude.{
  String, Bool, true, false, ◌&&◌, ◌==◌, Option, none, some, List, [], ◌∷◌, ◌++◌, find,
  if◌then◌else◌,
}
use why_not_grace_pos.Access.{
  UserRole, owner, manager, cash_counter, service_counter, FeatureModule, hotel_rooms, loyalty,
  NavItem, nav_items,
}
use why_not_grace_pos.Access.Home.{shows_dashboard}
use why_not_grace_pos.Api.Calls.{Params}
use why_not_grace_pos.Progress.{can_bill}
use why_not_grace_pos.Queries.Registry.{Query}

-- `BUILT_PAGES`.
pub data Page : Type 0 where
  pos_page orders_page kitchen_page tables_page billing_page shift_page customers_page : Page
  menu_page rooms_page staff_page flags_page settings_page integrations_page : Page
  loyalty_page delivery_page reports_page subscription_page : Page

abbrev pub path_of : Page → String
path_of pos_page = "/pos"
path_of orders_page = "/orders"
path_of kitchen_page = "/kitchen"
path_of tables_page = "/tables"
path_of billing_page = "/billing"
path_of shift_page = "/shift"
path_of customers_page = "/customers"
path_of menu_page = "/menu"
path_of rooms_page = "/rooms"
path_of staff_page = "/staff"
path_of flags_page = "/feature-flags"
path_of settings_page = "/settings"
path_of integrations_page = "/integrations"
path_of loyalty_page = "/loyalty"
path_of delivery_page = "/delivery"
path_of reports_page = "/reports"
path_of subscription_page = "/subscription"

-- The navigation item that routes to a page.
abbrev pub nav_item_of : Page → Option NavItem
nav_item_of p = find (λ i. NavItem.path i == path_of p) nav_items

-- `{ enabled }` of a query.
abbrev pub when : Bool → List Query → List Query
when true qs = qs
when false qs = []

abbrev pub has_kitchen_access : UserRole → Bool
has_kitchen_access owner = true
has_kitchen_access manager = true
has_kitchen_access _ = false

-- `LOYALTY_VIEW_ROLES`.
abbrev pub views_loyalty : UserRole → Bool
views_loyalty owner = true
views_loyalty manager = true
views_loyalty _ = false

-- `hasServiceOnlyAccess`.
abbrev pub is_service_counter : UserRole → Bool
is_service_counter service_counter = true
is_service_counter _ = false

module _ (filter : Params) (id : Option String) where
  -- `PosPage`, with CartPanel and its dialogs; the rooms are asked for once they can be chosen.
  unfoldable pub pos_reads : (FeatureModule → Bool) → List Query
  pos_reads enabled =
      Query.categories
      ∷ Query.menu_items
      ∷ Query.feature_flags
      ∷ Query.tables
      ∷ Query.customers
      ∷ when (enabled hotel_rooms) (Query.rooms ∷ [])

  -- `OrdersPage`, with OrderDetailDialog and the BillDetailDialog in it, which a bill is shown in once
  -- the dialog's button has asked for it.
  unfoldable pub orders_reads : UserRole → (FeatureModule → Bool) → List Query
  unfolding can_bill
  orders_reads role enabled =
      Query.orders filter
        ∷ Query.feature_flags
        ∷ Query.tables
        ∷ Query.business
        ∷ when (enabled hotel_rooms) (Query.rooms ∷ [])
      ++ when (has_kitchen_access role) (Query.kots filter ∷ [])
      ++ when (is_service_counter role) (Query.ready_for_service ∷ [])
      ++ when (can_bill (some role)) (Query.bill id ∷ [])

  -- `BillingPage`, with BillDetailDialog.
  unfoldable pub billing_reads : (FeatureModule → Bool) → List Query
  billing_reads enabled =
      Query.feature_flags
      ∷ Query.unbilled_orders
      ∷ Query.tables
      ∷ Query.business
      ∷ Query.bill id
      ∷ when (enabled hotel_rooms) (Query.rooms ∷ [])

  -- `CustomersPage`, with CustomerDetailDialog.
  unfoldable pub customers_reads : UserRole → (FeatureModule → Bool) → List Query
  customers_reads role enabled =
      Query.customers
      ∷ Query.feature_flags
      ∷ when (views_loyalty role && enabled loyalty)
          (Query.loyalty_account id ∷ Query.loyalty_rewards id ∷ [])

  -- `MenuAdminPage`, with its dialogs' price rules and translations.
  unfoldable pub menu_reads : List Query
  menu_reads =
      Query.categories
      ∷ Query.menu_items
      ∷ Query.price_rules id
      ∷ Query.item_translations id
      ∷ Query.category_translations id
      ∷ []

  -- `BusinessSettingsPage`, with ChargeBandsSection and CounterRulesSection.
  unfoldable pub settings_reads : List Query
  settings_reads =
      Query.business
      ∷ Query.business_settings
      ∷ Query.charge_bands
      ∷ Query.charge_preview id id
      ∷ Query.toggles
      ∷ Query.invoice_series
      ∷ []

  -- `ReportsPage`.
  unfoldable pub reports_reads : List Query
  reports_reads =
      Query.sales_report filter
      ∷ Query.orders_report filter
      ∷ Query.payments_report filter
      ∷ Query.top_items_report filter
      ∷ Query.categories_report filter
      ∷ Query.channels_report filter
      ∷ []

  -- The other pages make the queries of one or two hooks.
  unfoldable pub page_reads : Page → UserRole → (FeatureModule → Bool) → List Query
  unfolding pos_reads orders_reads billing_reads customers_reads menu_reads settings_reads
      reports_reads
  page_reads pos_page role enabled = pos_reads enabled
  page_reads orders_page role enabled = orders_reads role enabled
  page_reads kitchen_page role enabled = Query.kitchen_queue ∷ []
  page_reads tables_page role enabled = Query.tables ∷ Query.orders filter ∷ []
  page_reads billing_page role enabled = billing_reads enabled
  page_reads shift_page role enabled = Query.current_shift ∷ Query.shift_report id ∷ []
  page_reads customers_page role enabled = customers_reads role enabled
  page_reads menu_page role enabled = menu_reads
  page_reads rooms_page role enabled = Query.rooms ∷ []
  page_reads staff_page role enabled = Query.staff ∷ []
  page_reads flags_page role enabled = Query.feature_flags ∷ []
  page_reads settings_page role enabled = settings_reads
  page_reads integrations_page role enabled = Query.integrations ∷ Query.feature_flags ∷ []
  page_reads loyalty_page role enabled = Query.loyalty_rules ∷ []
  page_reads delivery_page role enabled = Query.delivery_orders ∷ []
  page_reads reports_page role enabled = reports_reads
  page_reads subscription_page role enabled = Query.subscription ∷ []

module _ (filter : Params) (id : Option String) where
  -- The cards of `RoleHomePage`, by role, with the report that ShiftStatusCard shows.
  unfoldable pub card_reads : UserRole → List Query
  card_reads cash_counter =
      Query.current_shift ∷ Query.shift_report id ∷ Query.orders filter ∷ Query.tables ∷ []
  card_reads service_counter = Query.orders filter ∷ Query.tables ∷ []
  card_reads UserRole.kitchen = Query.kitchen_queue ∷ []
  card_reads UserRole.delivery = Query.delivery_orders ∷ []
  card_reads _ = []

  -- `HomePage`.
  unfoldable pub home_reads : UserRole → List Query
  unfolding shows_dashboard card_reads
  home_reads role =
      if shows_dashboard (some role)
      then Query.dashboard (some role) ∷ Query.feature_flags ∷ []
      else Query.business ∷ Query.feature_flags ∷ card_reads role

-- Around every page: the sidebar, the notifications and the banner of the subscription.
abbrev pub shell_reads : List Query
shell_reads = Query.business ∷ Query.feature_flags ∷ Query.notifications ∷ Query.subscription ∷ []
