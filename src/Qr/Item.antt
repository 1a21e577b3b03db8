-- ===== src/Qr/Item.antt =====
-- The guest's menu, its schemas in frontend/src/types/api.ts, the dialog of a dish in
-- frontend/src/features/qr/components/QrItemDialog.tsx, and handleSelectItem of
-- frontend/src/features/qr/QrOrderingPage.tsx. The dialog's clicks on options are the counter's.
pub mod Choice
use why_not_grace_pos.Prelude.{
  ℕ, String, Bool, true, false, not, ◌&&◌, ◌||◌, Option, none, some, List, [], ◌∷◌, map, ◌==◌,
  Number, keep, find, is_truthy, is_set, or_none, trim, if◌then◌else◌,
}
use mathlib.Core.Option
use mathlib.Core.List.{foldl, flat_map}
use why_not_grace_pos.Cart.{CartLineOption, LineBody, add_line, CartLine}
use why_not_grace_pos.Cart.Select.{select_simple}
use why_not_grace_pos.Customize.{Chosen, has_id}

pub record QrMenuVariantOut {ℓ} (N : Type ℓ) : Type ℓ where
  pub id : String
  pub name : String
  pub price_delta : N
  pub is_default : Bool

pub record QrMenuOptionOut {ℓ} (N : Type ℓ) : Type ℓ where
  pub id : String
  pub name : String
  pub price_delta : N

pub record QrMenuOptionGroupOut {ℓ} (N : Type ℓ) : Type ℓ where
  pub id : String
  pub name : String
  pub is_required : Bool
  pub allow_multiple : Bool
  pub options : List (QrMenuOptionOut N)

pub record QrMenuItemOut {ℓ} (N : Type ℓ) : Type ℓ where
  pub id : String
  pub name : String
  pub description : Option String
  pub price : N
  pub is_veg : Bool
  pub is_sold_out : Bool
  pub is_todays_special : Bool
  pub is_specialty : Bool
  pub image_url : Option String
  pub variants : List (QrMenuVariantOut N)
  pub option_groups : List (QrMenuOptionGroupOut N)

abbrev pub has_none {ℓ} : {A : Type ℓ} → List A → Bool
has_none [] = true
has_none (_ ∷ _) = false

pub record QrDialog {ℓ} (N : Type ℓ) : Type ℓ where
  pub item : QrMenuItemOut N
  pub variant_id : Option String
  pub chosen : Chosen
  pub quantity : N
  pub notes : String

module _ {ℓ} {N : Type ℓ} where
  abbrev pub first_variant : List (QrMenuVariantOut N) → Option String
  first_variant [] = none
  first_variant (v ∷ vs) = some v.id

  -- `find(…)?.id ?? variants[0]?.id`.
  unfoldable pub qr_default_variant_id : List (QrMenuVariantOut N) → Option String
  qr_default_variant_id variants = elim (find (λ v. v.is_default) variants) [
    | none ↦ first_variant variants
    | some v ↦ some v.id
  ]

  unfoldable pub qr_selected_variant :
      Option String → List (QrMenuVariantOut N) → Option (QrMenuVariantOut N)
  qr_selected_variant none variants = none
  qr_selected_variant (some id) variants = find (λ v. v.id == id) variants

  unfoldable pub qr_missing_required_group :
      Chosen → List (QrMenuOptionGroupOut N) → Option (QrMenuOptionGroupOut N)
  qr_missing_required_group chosen = find (λ g. g.is_required && has_none (chosen g.id))

  unfoldable pub qr_can_add : QrDialog N → Bool
  unfolding qr_missing_required_group
  qr_can_add d =
      (has_none d.item.variants || is_set d.variant_id)
      && (elim (qr_missing_required_group d.chosen d.item.option_groups) [
        | none ↦ true
        | some g ↦ false
      ])

  unfoldable pub qr_selected_options : QrDialog N → List (QrMenuOptionOut N)
  qr_selected_options d =
      flat_map (λ g. keep (λ o. has_id o.id (d.chosen g.id)) g.options) d.item.option_groups

  unfoldable pub qr_cart_option : QrMenuOptionOut N → CartLineOption N
  qr_cart_option o = record { id = o.id; name = o.name; price_delta = o.price_delta }

module _ {ℓ} {N : Type ℓ} ⦃n : Number N⦄ where
  unfoldable pub qr_open_item : QrMenuItemOut N → QrDialog N
  unfolding qr_default_variant_id
  qr_open_item item = record {
    item = item;
    variant_id = qr_default_variant_id item.variants;
    chosen = λ _. [];
    quantity = n.of_ℕ 1;
    notes = "";
  }

  abbrev pub delta_of : Option (QrMenuVariantOut N) → N
  delta_of none = n.of_ℕ 0
  delta_of (some v) = v.price_delta

  unfoldable pub qr_unit_estimate : QrDialog N → N
  unfolding qr_selected_variant
  qr_unit_estimate d =
      n.add d.item.price (delta_of (qr_selected_variant d.variant_id d.item.variants))

  unfoldable pub qr_options_total : QrDialog N → N
  unfolding qr_selected_options
  qr_options_total d = foldl (λ s o. n.add s o.price_delta) (n.of_ℕ 0) (qr_selected_options d)

  unfoldable pub qr_shown_estimate : QrDialog N → N
  unfolding qr_unit_estimate qr_options_total
  qr_shown_estimate d = n.mul (n.add (qr_unit_estimate d) (qr_options_total d)) d.quantity

  unfoldable pub qr_new_line : QrDialog N → LineBody N
  unfolding qr_unit_estimate qr_selected_variant qr_selected_options qr_cart_option
  qr_new_line d = record {
    menu_item_id = d.item.id;
    item_name = d.item.name;
    is_veg = d.item.is_veg;
    unit_estimate = qr_unit_estimate d;
    variant_id = Option.map (λ v. v.id) (qr_selected_variant d.variant_id d.item.variants);
    variant_name = Option.map (λ v. v.name) (qr_selected_variant d.variant_id d.item.variants);
    options = map qr_cart_option (qr_selected_options d);
    quantity = d.quantity;
    special_instructions = or_none (trim d.notes);
  }

  unfoldable pub qr_press_add : String → QrDialog N → List (CartLine N) → List (CartLine N)
  unfolding qr_can_add add_line
  qr_press_add uuid d lines = if qr_can_add d then add_line uuid (qr_new_line d) lines else lines

  -- `handleSelectItem`: the cart's lines, and the item whose dialog opens.
  unfoldable pub qr_select_item :
      String → QrMenuItemOut N → List (CartLine N) → List (CartLine N) × Option (QrMenuItemOut N)
  unfolding select_simple
  qr_select_item uuid item lines =
      if has_none item.variants && has_none item.option_groups
      then (select_simple uuid item.id item.name item.is_veg item.price lines, none)
      else (lines, some item)
