-- ===== src/Queries/Coverage.antt =====
-- What the success of a mutation of frontend/src/features reaches, of the resources that its call stands
-- directly below.
use why_not_grace_pos.Prelude.{
  String, Bool, true, false, Option, none, some, List, [], ◌∷◌, ◌++◌, All, ◌≡◌, ◌⊎◌, inl, inr, refl,
  ap, arith,
}
use why_not_grace_pos.Queries.Options.{name, Key, maybe, Effect, invalidate, write}
use why_not_grace_pos.Queries.Resources.{Root, whole, part, root_at}
use why_not_grace_pos.Queries.Parents.{parents}
use why_not_grace_pos.Queries.Registry.{
  Mutation, create_order, cancel_order, transfer_session, merge_sessions, generate_bill,
  apply_discount, void_bill_item, comp_bill_item, uncomp_bill_item, void_bill, mark_bill_no_charge,
  update_kot_status, serve_kot, update_delivery_status, create_table, update_table, delete_table,
  create_room, update_room, delete_room, record_manual_payment, create_razorpay_order,
  verify_razorpay_payment, open_shift, close_shift, update_business_settings, create_charge_band,
  update_charge_band, delete_charge_band, update_toggle, reset_toggle, create_loyalty_rule,
  update_loyalty_rule, redeem_reward, create_customer, update_customer, create_staff, update_staff,
  reset_staff_access, create_price_rule, update_price_rule, delete_price_rule,
  mark_notification_read, mark_all_notifications_read, update_business, create_category,
  update_category, delete_category, create_menu_item, update_menu_item, delete_menu_item,
  add_variant, add_option_group, add_option, update_variant, delete_variant, update_option_group,
  delete_option_group, update_option, delete_option, set_item_translation, set_category_translation,
  place_qr_order, connect_integration, disconnect_integration, sync_integration_menu,
  provision_business, set_business_active, set_platform_feature, set_platform_toggle,
  provision_subscription, renew_subscription, suspend_subscription, cancel_subscription,
  set_platform_website, extract_menu_from_photos, publish_imported_menu, login, logout,
  forgot_password, reset_password, platform_login, platform_logout, mutation_of,
}

-- The mutations that refresh no query of a resource that theirs stands below: the sync of an
-- integration's menu, which the list of integrations is not fetched again after, and the change of a
-- business's website, which the business is not fetched again after.
abbrev pub leaves_stale : Mutation → Bool
leaves_stale (set_platform_website _ _) = true
leaves_stale (sync_integration_menu _) = true
leaves_stale _ = false

-- A mutation of a bill answers with that bill.
unfoldable pub IsAnswer : Mutation → String → Type 0
IsAnswer (apply_discount bill_id _) answer = bill_id ≡ some answer
IsAnswer (void_bill_item bill_id _ _) answer = bill_id ≡ some answer
IsAnswer (comp_bill_item bill_id _ _) answer = bill_id ≡ some answer
IsAnswer (uncomp_bill_item bill_id _) answer = bill_id ≡ some answer
IsAnswer (void_bill bill_id _) answer = bill_id ≡ some answer
IsAnswer (mark_bill_no_charge bill_id _) answer = bill_id ≡ some answer
IsAnswer _ answer = Unit

-- The effect reaches every key of the root.
unfoldable pub Reaches : Effect → Root → Type 0
Reaches (invalidate k) (whole key) = (rest : Key) × (key ≡ k ++ rest)
Reaches (invalidate k) (part key) = (rest : Key) × (key ≡ k ++ rest)
Reaches (write k) (whole key) = key ≡ k
Reaches (write k) (part key) = ⊥

unfoldable pub AnyReaches : List Effect → Root → Type 0
unfolding Reaches
AnyReaches [] r = ⊥
AnyReaches (e ∷ es) r = Reaches e r ⊎ AnyReaches es r

unfoldable pub Serves : List Effect → Option Root → Type 0
unfolding AnyReaches
Serves es none = Unit
Serves es (some r) = AnyReaches es r

pub served :
    (m : Mutation) (answer : String)
    → IsAnswer m answer
    → leaves_stale m ≡ false
    → All
        (λ p. Serves ((mutation_of m).on_success answer) (root_at p))
        (parents ((mutation_of m).mutation_fn.path))
unfolding Serves AnyReaches Reaches IsAnswer parents
served (create_order payload) answer h k = ((inl ([], refl)), (tt, (tt)))
served (cancel_order id) answer h k =
    (tt, ((inl (name "detail" ∷ maybe id ∷ [], refl)), ((inl ([], refl)), (tt))))
served (transfer_session session_id location_id) answer h k = (tt, (tt, (tt, (tt))))
served (merge_sessions session_id into_session_id) answer h k = (tt, (tt, (tt, (tt))))
served (generate_bill payload) answer h k = (tt, (tt, (tt)))
served (apply_discount bill_id payload) answer h k =
    (tt, ((inl (ap (λ i. name "billing" ∷ maybe i ∷ []) h)), (tt, (tt))))
served (void_bill_item bill_id item_id reason) answer h k = (tt, (tt, (tt, (tt))))
served (comp_bill_item bill_id item_id reason) answer h k = (tt, (tt, (tt, (tt))))
served (uncomp_bill_item bill_id item_id) answer h k = (tt, (tt, (tt, (tt))))
served (void_bill bill_id reason) answer h k =
    (tt, ((inl (ap (λ i. name "billing" ∷ maybe i ∷ []) h)), (tt, (tt))))
served (mark_bill_no_charge bill_id reason) answer h k =
    (tt, ((inl (ap (λ i. name "billing" ∷ maybe i ∷ []) h)), (tt, (tt))))
served (update_kot_status id payload) answer h k = (tt, (tt, ((inl ([], refl)), (tt))))
served (serve_kot kot_id) answer h k = (tt, (tt, (tt, (tt))))
served (update_delivery_status order_id payload) answer h k =
    (tt, (tt, ((inl (name "orders" ∷ [], refl)), (tt))))
served (create_table payload) answer h k = ((inl ([], refl)), (tt, (tt)))
served (update_table table_id payload) answer h k = (tt, ((inl ([], refl)), (tt)))
served (delete_table table_id) answer h k = (tt, (tt, (tt)))
served (create_room payload) answer h k = ((inl ([], refl)), (tt, (tt)))
served (update_room room_id payload) answer h k = (tt, ((inl ([], refl)), (tt)))
served (delete_room room_id) answer h k = (tt, (tt, (tt)))
served (record_manual_payment payload) answer h k = (tt, (tt, (tt)))
served (create_razorpay_order payload idempotency_key) answer h k = (tt, (tt, (tt)))
served (verify_razorpay_payment payload) answer h k = (tt, (tt, (tt)))
served (open_shift opening_float) answer h k = ((inr (inl ([], refl))), (tt, (tt)))
served (close_shift shift_id payload) answer h k = (tt, (tt, ((inr (inl ([], refl))), (tt))))
served (update_business_settings payload) answer h k = ((inl ([], refl)), (tt, (tt)))
served (create_charge_band payload) answer h k = ((inl ([], refl)), (tt, (tt)))
served (update_charge_band band_id payload) answer h k = (tt, ((inl ([], refl)), (tt)))
served (delete_charge_band band_id) answer h k = (tt, ((inl ([], refl)), (tt)))
served (update_toggle key enabled) answer h k = (tt, ((inl ([], refl)), (tt)))
served (reset_toggle key) answer h k = (tt, ((inl ([], refl)), (tt)))
served (create_loyalty_rule payload) answer h k = ((inl ([], refl)), (tt, (tt)))
served (update_loyalty_rule rule_id payload) answer h k = (tt, ((inl ([], refl)), (tt)))
served (redeem_reward reward_id payload) answer h k = (tt, (tt, (tt, (tt))))
served (create_customer payload) answer h k = ((inl ([], refl)), (tt, (tt)))
served (update_customer id payload) answer h k = (tt, ((inl ([], refl)), (tt)))
served (create_staff payload) answer h k = ((inl ([], refl)), (tt, (tt)))
served (update_staff staff_id payload) answer h k = (tt, ((inl ([], refl)), (tt)))
served (reset_staff_access staff_id) answer h k = (tt, (tt, ((inl ([], refl)), (tt))))
served (create_price_rule payload) answer h k = ((inl ([], refl)), (tt, (tt)))
served (update_price_rule rule_id payload) answer h k = (tt, ((inl ([], refl)), (tt)))
served (delete_price_rule rule_id) answer h k = (tt, ((inl ([], refl)), (tt)))
served (mark_notification_read notification_id) answer h k = (tt, (tt, ((inl ([], refl)), (tt))))
served mark_all_notifications_read answer h k = (tt, ((inl ([], refl)), (tt)))
served (update_business payload) answer h k = ((inl (name "me" ∷ [], refl)), (tt, (tt)))
served (create_category payload) answer h k = ((inl ([], refl)), (tt, (tt)))
served (update_category category_id payload) answer h k = (tt, ((inl ([], refl)), (tt)))
served (delete_category category_id) answer h k = (tt, ((inl ([], refl)), (tt)))
served (create_menu_item payload) answer h k = ((inr (inl ([], refl))), (tt, (tt)))
served (update_menu_item item_id payload) answer h k = (tt, ((inr (inl ([], refl))), (tt)))
served (delete_menu_item item_id) answer h k = (tt, ((inr (inl ([], refl))), (tt)))
served (add_variant item_id payload) answer h k = (tt, (tt, ((inr (inl ([], refl))), (tt))))
served (add_option_group item_id payload) answer h k = (tt, (tt, ((inr (inl ([], refl))), (tt))))
served (add_option group_id payload) answer h k = (tt, (tt, (tt, (tt))))
served (update_variant variant_id payload) answer h k = (tt, (tt, (tt)))
served (delete_variant variant_id) answer h k = (tt, (tt, (tt)))
served (update_option_group group_id payload) answer h k = (tt, (tt, (tt)))
served (delete_option_group group_id) answer h k = (tt, (tt, (tt)))
served (update_option option_id payload) answer h k = (tt, (tt, (tt)))
served (delete_option option_id) answer h k = (tt, (tt, (tt)))
served (set_item_translation item_id language payload) answer h k = (tt, ((inl ([], refl)), (tt)))
served (set_category_translation category_id language payload) answer h k =
    (tt, ((inl ([], refl)), (tt)))
served (place_qr_order token payload) answer h k = (tt, (tt, (tt)))
served (connect_integration provider payload) answer h k = (tt, (tt, ((inl ([], refl)), (tt))))
served (disconnect_integration provider) answer h k = (tt, (tt, ((inl ([], refl)), (tt))))
served (sync_integration_menu provider) answer h k = ground arith
served (provision_business payload) answer h k = ((inl ([], refl)), (tt, (tt)))
served (set_business_active business_id payload) answer h k =
    (tt, ((inl (maybe business_id ∷ [], refl)), ((inl ([], refl)), (tt))))
served (set_platform_feature business_id feature payload) answer h k =
    (tt, ((inl ([], refl)), (tt)))
served (set_platform_toggle business_id key payload) answer h k = (tt, ((inl ([], refl)), (tt)))
served (provision_subscription business_id payload) answer h k = (tt, ((inl ([], refl)), (tt)))
served (renew_subscription business_id payload) answer h k = (tt, ((inl ([], refl)), (tt)))
served (suspend_subscription business_id) answer h k = (tt, ((inl ([], refl)), (tt)))
served (cancel_subscription business_id) answer h k = (tt, ((inl ([], refl)), (tt)))
served (set_platform_website business_id payload) answer h k = ground arith
served (extract_menu_from_photos business_id form) answer h k = (tt, (tt, (tt)))
served (publish_imported_menu business_id payload) answer h k = (tt, (tt, (tt)))
served (login payload) answer h k = (tt, (tt, tt))
served (logout payload) answer h k = (tt, (tt, tt))
served (forgot_password payload) answer h k = (tt, (tt, tt))
served (reset_password payload) answer h k = (tt, (tt, tt))
served (platform_login payload) answer h k = (tt, (tt, tt))
served (platform_logout payload) answer h k = (tt, (tt, tt))
