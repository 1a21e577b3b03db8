-- ===== src/Writes/Backend.antt =====
-- Who may write what: for each route of backend/app/api that a page of the staff posts to, the roles and
-- the feature that it asks for. Routes of one router that ask for the same stand together.
use why_not_grace_pos.Prelude.{String, Bool, false, ◌&&◌, ◌==◌, Option, none, some, if◌then◌else◌}
use why_not_grace_pos.Access.{
  UserRole, FeatureModule, hotel_rooms, loyalty, online_payment, zomato, swiggy,
}
use why_not_grace_pos.Progress.Backend.{role_operational, role_service, role_billing}
use why_not_grace_pos.Reads.Backend.{
  role_full_access, role_kitchen, role_delivery, role_any_staff, staff_order_roles,
}
use why_not_grace_pos.Queries.Registry.{Mutation}

unfoldable pub create_order : UserRole → Bool
unfolding staff_order_roles
create_order r = staff_order_roles r

unfoldable pub cancel_order : UserRole → Bool
unfolding role_operational
cancel_order r = role_operational r

unfoldable pub move_sessions : UserRole → Bool
unfolding role_service
move_sessions r = role_service r

unfoldable pub change_bill : UserRole → Bool
unfolding role_billing
change_bill r = role_billing r

unfoldable pub apply_discount : UserRole → Bool
unfolding role_operational
apply_discount r = role_operational r

unfoldable pub record_payment : UserRole → Bool
unfolding role_billing
record_payment r = role_billing r

unfoldable pub create_razorpay_order : UserRole → (FeatureModule → Bool) → Bool
unfolding role_billing
create_razorpay_order r enabled = role_billing r && enabled online_payment

unfoldable pub change_shift : UserRole → Bool
unfolding role_billing
change_shift r = role_billing r

unfoldable pub change_kot : UserRole → Bool
change_kot r = role_kitchen r

unfoldable pub mark_served : UserRole → Bool
unfolding role_service
mark_served r = role_service r

unfoldable pub change_delivery : UserRole → (FeatureModule → Bool) → Bool
change_delivery r enabled = role_delivery r && enabled FeatureModule.delivery

unfoldable pub change_table : UserRole → Bool
unfolding role_operational
change_table r = role_operational r

unfoldable pub delete_location : UserRole → Bool
unfolding role_operational
delete_location r = role_operational r

unfoldable pub change_room : UserRole → (FeatureModule → Bool) → Bool
unfolding role_operational
change_room r enabled = role_operational r && enabled hotel_rooms

unfoldable pub create_customer : UserRole → Bool
create_customer r = role_any_staff r

unfoldable pub update_customer : UserRole → Bool
unfolding role_operational
update_customer r = role_operational r

unfoldable pub change_loyalty_rule : UserRole → (FeatureModule → Bool) → Bool
change_loyalty_rule r enabled = role_full_access r && enabled loyalty

unfoldable pub redeem_reward : UserRole → (FeatureModule → Bool) → Bool
unfolding role_operational
redeem_reward r enabled = role_operational r && enabled loyalty

unfoldable pub change_staff : UserRole → Bool
change_staff r = role_full_access r

unfoldable pub change_price_rule : UserRole → Bool
unfolding role_operational
change_price_rule r = role_operational r

unfoldable pub change_category : UserRole → Bool
unfolding role_operational
change_category r = role_operational r

unfoldable pub change_menu : UserRole → Bool
unfolding role_operational
change_menu r = role_operational r

unfoldable pub update_my_business : UserRole → Bool
update_my_business r = role_full_access r

unfoldable pub update_settings : UserRole → Bool
update_settings r = role_full_access r

unfoldable pub change_band : UserRole → Bool
change_band r = role_full_access r

unfoldable pub change_toggle : UserRole → Bool
change_toggle r = role_full_access r

unfoldable pub change_integration : UserRole → Bool
change_integration r = role_full_access r

-- `_FEATURE_BY_PROVIDER`.
abbrev pub feature_by_provider : String → Option FeatureModule
feature_by_provider provider =
    if provider == "ZOMATO" then some zomato else if provider == "SWIGGY" then some swiggy else none

-- `require_feature_for_business`; a provider that is not listed is refused.
abbrev pub has_feature : (FeatureModule → Bool) → Option FeatureModule → Bool
has_feature enabled none = false
has_feature enabled (some m) = enabled m

unfoldable pub sync_menu : UserRole → (FeatureModule → Bool) → Option String → Bool
sync_menu r enabled none = false
sync_menu r enabled (some provider) =
    role_full_access r && has_feature enabled (feature_by_provider provider)

unfoldable pub mark_read : UserRole → Bool
mark_read r = role_any_staff r

-- The answer to a mutation of the hooks; those of guests and of the platform are none of the staff's.
unfoldable pub may_write : UserRole → (FeatureModule → Bool) → Mutation → Bool
unfolding create_order cancel_order move_sessions change_bill apply_discount record_payment
    create_razorpay_order change_shift change_kot mark_served change_delivery change_table
    delete_location change_room create_customer update_customer change_loyalty_rule redeem_reward
    change_staff change_price_rule change_category change_menu update_my_business update_settings
    change_band change_toggle change_integration sync_menu mark_read
may_write r enabled (Mutation.create_order t) = create_order r
may_write r enabled (Mutation.cancel_order i) = cancel_order r
may_write r enabled (Mutation.transfer_session i j) = move_sessions r
may_write r enabled (Mutation.merge_sessions i j) = move_sessions r
may_write r enabled (Mutation.generate_bill t) = change_bill r
may_write r enabled (Mutation.void_bill i j) = change_bill r
may_write r enabled (Mutation.void_bill_item i j k) = change_bill r
may_write r enabled (Mutation.comp_bill_item i j k) = change_bill r
may_write r enabled (Mutation.uncomp_bill_item i j) = change_bill r
may_write r enabled (Mutation.mark_bill_no_charge i j) = change_bill r
may_write r enabled (Mutation.apply_discount i t) = apply_discount r
may_write r enabled (Mutation.record_manual_payment t) = record_payment r
may_write r enabled (Mutation.create_razorpay_order t i) = create_razorpay_order r enabled
may_write r enabled (Mutation.open_shift t) = change_shift r
may_write r enabled (Mutation.close_shift i t) = change_shift r
may_write r enabled (Mutation.update_kot_status i t) = change_kot r
may_write r enabled (Mutation.serve_kot i) = mark_served r
may_write r enabled (Mutation.update_delivery_status i t) = change_delivery r enabled
may_write r enabled (Mutation.create_table t) = change_table r
may_write r enabled (Mutation.update_table i t) = change_table r
may_write r enabled (Mutation.delete_table i) = delete_location r
may_write r enabled (Mutation.delete_room i) = delete_location r
may_write r enabled (Mutation.create_room t) = change_room r enabled
may_write r enabled (Mutation.update_room i t) = change_room r enabled
may_write r enabled (Mutation.create_customer t) = create_customer r
may_write r enabled (Mutation.update_customer i t) = update_customer r
may_write r enabled (Mutation.create_loyalty_rule t) = change_loyalty_rule r enabled
may_write r enabled (Mutation.update_loyalty_rule i t) = change_loyalty_rule r enabled
may_write r enabled (Mutation.redeem_reward i t) = redeem_reward r enabled
may_write r enabled (Mutation.create_staff t) = change_staff r
may_write r enabled (Mutation.update_staff i t) = change_staff r
may_write r enabled (Mutation.reset_staff_access i) = change_staff r
may_write r enabled (Mutation.create_price_rule t) = change_price_rule r
may_write r enabled (Mutation.update_price_rule i t) = change_price_rule r
may_write r enabled (Mutation.delete_price_rule i) = change_price_rule r
may_write r enabled (Mutation.create_category t) = change_category r
may_write r enabled (Mutation.update_category i t) = change_category r
may_write r enabled (Mutation.delete_category i) = change_category r
may_write r enabled (Mutation.set_category_translation i j t) = change_category r
may_write r enabled (Mutation.create_menu_item t) = change_menu r
may_write r enabled (Mutation.update_menu_item i t) = change_menu r
may_write r enabled (Mutation.delete_menu_item i) = change_menu r
may_write r enabled (Mutation.add_variant i t) = change_menu r
may_write r enabled (Mutation.add_option_group i t) = change_menu r
may_write r enabled (Mutation.add_option i t) = change_menu r
may_write r enabled (Mutation.update_variant i t) = change_menu r
may_write r enabled (Mutation.delete_variant i) = change_menu r
may_write r enabled (Mutation.update_option_group i t) = change_menu r
may_write r enabled (Mutation.delete_option_group i) = change_menu r
may_write r enabled (Mutation.update_option i t) = change_menu r
may_write r enabled (Mutation.delete_option i) = change_menu r
may_write r enabled (Mutation.set_item_translation i j t) = change_menu r
may_write r enabled (Mutation.update_business t) = update_my_business r
may_write r enabled (Mutation.update_business_settings t) = update_settings r
may_write r enabled (Mutation.create_charge_band t) = change_band r
may_write r enabled (Mutation.update_charge_band i t) = change_band r
may_write r enabled (Mutation.delete_charge_band i) = change_band r
may_write r enabled (Mutation.update_toggle i b) = change_toggle r
may_write r enabled (Mutation.reset_toggle i) = change_toggle r
may_write r enabled (Mutation.connect_integration i t) = change_integration r
may_write r enabled (Mutation.disconnect_integration i) = change_integration r
may_write r enabled (Mutation.sync_integration_menu i) = sync_menu r enabled i
may_write r enabled (Mutation.mark_notification_read i) = mark_read r
may_write r enabled Mutation.mark_all_notifications_read = mark_read r
may_write r enabled _ = false
