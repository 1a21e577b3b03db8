-- ===== src/Customize.antt =====
-- Choosing a variant and options for a dish:
-- frontend/src/features/pos/components/ItemCustomizeDialog.tsx. The selection is a function from group ids to the
-- chosen option ids; a group that is no key yet has none.
pub mod Selection
pub mod Estimate
mod Tests
use why_not_grace_pos.Prelude.{
  ℕ, ◌+◌, ◌-◌, String, Bool, true, false, not, ◌&&◌, ◌||◌, Option, none, some, List, [], ◌∷◌, ◌++◌,
  map, ◌==◌, Number, keep, find, is_truthy, is_set, or_none, trim, if◌then◌else◌,
}
use mathlib.Core.Option
use mathlib.Core.List.{foldl, flat_map}
use why_not_grace_pos.Menu.{MenuVariantOut, MenuOptionOut, MenuOptionGroupOut, MenuItemOut}
use why_not_grace_pos.Cart.{CartLineOption, LineBody, add_line, CartLine}

-- `Array.prototype.includes` on ids.
abbrev pub has_id : String → List String → Bool
has_id id [] = false
has_id id (x ∷ xs) = x == id || has_id id xs

abbrev pub Chosen : Type 0
Chosen = String → List String

-- `current.includes(optionId) ? … : …`, or the one option of a group of alternatives.
unfoldable pub toggled : Bool → String → List String → List String
toggled false option_id current = option_id ∷ []
toggled true option_id current =
    if has_id option_id current
    then keep (λ id. not (id == option_id)) current
    else current ++ (option_id ∷ [])

unfoldable pub toggle_option : String → String → Bool → Chosen → Chosen
unfolding toggled
toggle_option group_id option_id allow_multiple prev k =
    if k == group_id then toggled allow_multiple option_id (prev group_id) else prev k

abbrev pub is_none {ℓ} : {A : Type ℓ} → List A → Bool
is_none [] = true
is_none (_ ∷ _) = false

-- The dialog's state for the item that is open.
pub record Dialog {ℓ} (N : Type ℓ) : Type ℓ where
  pub item : MenuItemOut N
  pub variant_id : Option String
  pub chosen : Chosen
  pub quantity : N
  pub notes : String

module _ {ℓ} {N : Type ℓ} where
  unfoldable pub first_id : Option (MenuVariantOut N) → Option String
  first_id none = none
  first_id (some v) = some v.id

  -- `find(…)?.id ?? find(…)?.id`.
  unfoldable pub default_variant_id : List (MenuVariantOut N) → Option String
  unfolding first_id
  default_variant_id variants = elim (find (λ v. v.is_default && v.is_active) variants) [
    | none ↦ first_id (find (λ v. v.is_active) variants)
    | some v ↦ some v.id
  ]

  unfoldable pub selected_variant :
      Option String → List (MenuVariantOut N) → Option (MenuVariantOut N)
  selected_variant none variants = none
  selected_variant (some id) variants = find (λ v. v.id == id) variants

  unfoldable pub missing_required_group :
      Chosen → List (MenuOptionGroupOut N) → Option (MenuOptionGroupOut N)
  missing_required_group chosen = find (λ g. g.is_required && is_none (chosen g.id))

  unfoldable pub can_add : Dialog N → Bool
  unfolding missing_required_group
  can_add d =
      (is_none d.item.variants || is_set d.variant_id)
      && (elim (missing_required_group d.chosen d.item.option_groups) [
        | none ↦ true
        | some g ↦ false
      ])

  unfoldable pub all_selected_options : Dialog N → List (MenuOptionOut N)
  all_selected_options d =
      flat_map (λ g. keep (λ o. has_id o.id (d.chosen g.id)) g.options) d.item.option_groups

  unfoldable pub cart_option : MenuOptionOut N → CartLineOption N
  cart_option o = record { id = o.id; name = o.name; price_delta = o.price_delta }

module _ {ℓ} {N : Type ℓ} ⦃n : Number N⦄ where
  -- What a newly opened item starts with.
  unfoldable pub open_item : MenuItemOut N → Dialog N
  unfolding default_variant_id
  open_item item = record {
    item = item;
    variant_id = default_variant_id item.variants;
    chosen = λ _. [];
    quantity = n.of_ℕ 1;
    notes = "";
  }

  unfoldable pub price_delta_of : Option (MenuVariantOut N) → N
  price_delta_of none = n.of_ℕ 0
  price_delta_of (some v) = v.price_delta

  unfoldable pub unit_estimate : Dialog N → N
  unfolding selected_variant price_delta_of
  unit_estimate d =
      n.add d.item.base_price (price_delta_of (selected_variant d.variant_id d.item.variants))

  unfoldable pub selected_total : Dialog N → N
  selected_total d = foldl (λ s o. n.add s o.price_delta) (n.of_ℕ 0) (all_selected_options d)

  -- The total that the dialog shows.
  unfoldable pub shown_estimate : Dialog N → N
  unfolding unit_estimate selected_total
  shown_estimate d = n.mul (n.add (unit_estimate d) (selected_total d)) d.quantity

  -- The line that `handleAdd` hands to the cart.
  unfoldable pub new_line : Dialog N → LineBody N
  unfolding unit_estimate selected_variant cart_option
  new_line d = record {
    menu_item_id = d.item.id;
    item_name = d.item.name;
    is_veg = d.item.is_veg;
    unit_estimate = unit_estimate d;
    variant_id = Option.map (λ v. v.id) (selected_variant d.variant_id d.item.variants);
    variant_name = Option.map (λ v. v.name) (selected_variant d.variant_id d.item.variants);
    options = map cart_option (all_selected_options d);
    quantity = d.quantity;
    special_instructions = or_none (trim d.notes);
  }

  -- The add button, which `disabled={!canAdd}` guards.
  unfoldable pub press_add : String → Dialog N → List (CartLine N) → List (CartLine N)
  unfolding can_add add_line
  press_add uuid d lines = if can_add d then add_line uuid (new_line d) lines else lines
