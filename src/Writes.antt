-- ===== src/Writes.antt =====
-- What the pages of the staff may ask to be changed: the mutations of the page components that
-- frontend/src/App.tsx routes to and the sidebar lists, with those of the dialogs and sections on
-- them, by the role and the features that they are offered under. Of the ids and bodies there is one
-- each, which stands for any.
pub mod Backend
pub mod Allowed
mod Tests
use why_not_grace_pos.Prelude.{
  String, Bool, true, false, ◌&&◌, ◌||◌, ◌==◌, Option, none, some, List, [], ◌∷◌, ◌++◌,
  if◌then◌else◌,
}
use why_not_grace_pos.Access.{
  UserRole, owner, FeatureModule, loyalty, zomato, swiggy, online_payment,
}
use why_not_grace_pos.Progress.{has_cancel_role, can_serve, can_bill}
use why_not_grace_pos.Queries.Registry.{Mutation}
use why_not_grace_pos.Reads.{
  Page, pos_page, orders_page, kitchen_page, tables_page, billing_page, shift_page, customers_page,
  menu_page, rooms_page, staff_page, flags_page, settings_page, integrations_page, loyalty_page,
  delivery_page, reports_page, subscription_page, views_loyalty,
}

-- A mutation that is offered under a condition.
abbrev pub when : Bool → List Mutation → List Mutation
when true ms = ms
when false ms = []

-- `canManage` of `LoyaltyPage`.
abbrev pub can_manage : UserRole → Bool
can_manage owner = true
can_manage _ = false

-- `DISCOUNT_ROLES` of `BillDetailDialog`.
abbrev pub can_apply_discount : UserRole → Bool
can_apply_discount owner = true
can_apply_discount UserRole.manager = true
can_apply_discount _ = false

-- `SYNCABLE`.
unfoldable pub syncable : String → Bool
syncable provider = provider == "ZOMATO" || provider == "SWIGGY"

-- `featureEnabledFor`.
unfoldable pub feature_enabled_for : (FeatureModule → Bool) → String → Bool
feature_enabled_for enabled provider =
    if provider == "ZOMATO"
    then enabled zomato
    else if provider == "SWIGGY"
    then enabled swiggy
    else if provider == "RAZORPAY"
    then enabled online_payment
    else true

-- Whether a provider's card has the button that sends the menu, when it is connected.
unfoldable pub can_sync : (FeatureModule → Bool) → Option String → Bool
unfolding syncable feature_enabled_for
can_sync enabled none = false
can_sync enabled (some provider) = syncable provider && feature_enabled_for enabled provider

module _ (id : Option String) (body : String) where
  -- `BillingPage`, with BillDetailDialog and its panels.
  unfoldable pub billing_writes : UserRole → List Mutation
  billing_writes role =
      Mutation.generate_bill body
      ∷ Mutation.void_bill_item id id id
      ∷ Mutation.comp_bill_item id id id
      ∷ Mutation.uncomp_bill_item id id
      ∷ Mutation.record_manual_payment body
      ∷ Mutation.create_razorpay_order body id
      ∷ Mutation.void_bill id id
      ∷ when (can_apply_discount role)
          (Mutation.apply_discount id body ∷ Mutation.mark_bill_no_charge id id ∷ [])

  -- `OrderDetailDialog`, with the BillDetailDialog in it, which opens on the bill that its button asks
  -- for.
  unfoldable pub order_writes : UserRole → List Mutation
  unfolding has_cancel_role can_serve can_bill billing_writes
  order_writes role =
      when (can_serve (some role)) (Mutation.serve_kot id ∷ [])
      ++ when (can_bill (some role)) (Mutation.generate_bill body ∷ billing_writes role)
      ++ when (has_cancel_role (some role)) (Mutation.cancel_order id ∷ [])

  -- `TablesPage`, with TableFormDialog and TableMoveDialog.
  unfoldable pub tables_writes : List Mutation
  tables_writes =
      Mutation.create_table body
      ∷ Mutation.update_table id body
      ∷ Mutation.delete_table id
      ∷ Mutation.transfer_session id id
      ∷ Mutation.merge_sessions id id
      ∷ []

  -- `MenuAdminPage`, with CategoryFormDialog, MenuItemDialog and their sections.
  unfoldable pub menu_writes : List Mutation
  menu_writes =
      Mutation.delete_category id
      ∷ Mutation.create_category body
      ∷ Mutation.update_category id body
      ∷ Mutation.set_category_translation id id body
      ∷ Mutation.set_item_translation id id body
      ∷ Mutation.create_menu_item body
      ∷ Mutation.update_menu_item id body
      ∷ Mutation.delete_menu_item id
      ∷ Mutation.add_variant id body
      ∷ Mutation.delete_variant id
      ∷ Mutation.add_option_group id body
      ∷ Mutation.delete_option_group id
      ∷ Mutation.add_option id body
      ∷ Mutation.delete_option id
      ∷ Mutation.create_price_rule body
      ∷ Mutation.update_price_rule id body
      ∷ Mutation.delete_price_rule id
      ∷ []

  -- `BusinessSettingsPage`, with ChargeBandsSection and CounterRulesSection.
  unfoldable pub settings_writes : List Mutation
  settings_writes =
      Mutation.update_business body
      ∷ Mutation.update_business_settings body
      ∷ Mutation.create_charge_band body
      ∷ Mutation.update_charge_band id body
      ∷ Mutation.delete_charge_band id
      ∷ Mutation.update_toggle id true
      ∷ Mutation.reset_toggle id
      ∷ []

  -- `IntegrationsPage`: a menu is sent to a provider that has menus and whose feature is on.
  unfoldable pub integrations_writes : (FeatureModule → Bool) → List Mutation
  unfolding can_sync
  integrations_writes enabled =
      Mutation.connect_integration id body
      ∷ Mutation.disconnect_integration id
      ∷ when (can_sync enabled id) (Mutation.sync_integration_menu id ∷ [])

  unfoldable pub page_writes : Page → UserRole → (FeatureModule → Bool) → List Mutation
  unfolding order_writes billing_writes tables_writes menu_writes settings_writes
      integrations_writes
  page_writes pos_page role enabled =
      Mutation.create_order body ∷ Mutation.create_customer body ∷ []
  page_writes orders_page role enabled = order_writes role
  page_writes kitchen_page role enabled = Mutation.update_kot_status id body ∷ []
  page_writes tables_page role enabled = tables_writes
  page_writes billing_page role enabled = billing_writes role
  page_writes shift_page role enabled = Mutation.open_shift body ∷ Mutation.close_shift id body ∷ []
  page_writes customers_page role enabled =
      Mutation.create_customer body
      ∷ when (views_loyalty role && enabled loyalty) (Mutation.redeem_reward id body ∷ [])
  page_writes menu_page role enabled = menu_writes
  page_writes rooms_page role enabled =
      Mutation.create_room body ∷ Mutation.update_room id body ∷ Mutation.delete_room id ∷ []
  page_writes staff_page role enabled =
      Mutation.create_staff body
      ∷ Mutation.update_staff id body
      ∷ Mutation.reset_staff_access id
      ∷ []
  page_writes settings_page role enabled = settings_writes
  page_writes integrations_page role enabled = integrations_writes enabled
  page_writes loyalty_page role enabled =
      when (can_manage role)
        (Mutation.create_loyalty_rule body ∷ Mutation.update_loyalty_rule id body ∷ [])
  page_writes delivery_page role enabled = Mutation.update_delivery_status id body ∷ []
  page_writes _ role enabled = []
