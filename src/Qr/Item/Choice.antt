-- ===== src/Qr/Item/Choice.antt =====
-- What a guest can order of a dish.
use mathlib.Core.List.{foldl}
use why_not_grace_pos.Prelude.{
  String, Bool, true, ◌≡◌, refl, ap, ◌∙◌, Option, none, some, List, [], ◌∷◌, map, arith, find,
  Number, is_set, every, is_truthy, not, ◌⊎◌,
}
use why_not_grace_pos.Cart.{CartLine, line_estimate, cart_estimated_subtotal}
use why_not_grace_pos.Cart.Subtotal.{subtotal-add_line}
use why_not_grace_pos.Customize.{Chosen}
use why_not_grace_pos.Qr.Item.{
  QrMenuVariantOut, QrMenuOptionOut, QrMenuOptionGroupOut, QrMenuItemOut, QrDialog, has_none,
  qr_missing_required_group, qr_default_variant_id, qr_can_add, qr_selected_options, qr_cart_option,
  qr_open_item, qr_unit_estimate, qr_shown_estimate, qr_new_line, qr_press_add,
}

module _ {ℓ} {N : Type ℓ} where
  find-default_set :
      (p : QrMenuVariantOut N → Bool) (vs : List (QrMenuVariantOut N)) (v : QrMenuVariantOut N)
      → every (λ w. is_truthy w.id) vs ≡ true
      → find p vs ≡ some v
      → is_truthy v.id ≡ true
  find-default_set p [] v ids h = ground arith
  find-default_set p (w ∷ ws) v ids h = ground (arith, find-default_set p ws v)

  no_group_required :
      (chosen : Chosen) (gs : List (QrMenuOptionGroupOut N))
      → every (λ g. not g.is_required) gs ≡ true
      → qr_missing_required_group chosen gs ≡ none
  unfolding qr_missing_required_group
  no_group_required chosen [] h = refl
  no_group_required chosen (g ∷ gs) h = ground (arith, no_group_required chosen gs)

module _ {ℓ} {N : Type ℓ} ⦃n : Number N⦄ where
  qr_foldl-cart_option :
      (a : N) (os : List (QrMenuOptionOut N))
      → foldl (λ s o. n.add s o.price_delta) a (map qr_cart_option os)
        ≡ foldl (λ s o. n.add s o.price_delta) a os
  unfolding qr_cart_option
  qr_foldl-cart_option a [] = refl
  qr_foldl-cart_option a (o ∷ os) = qr_foldl-cart_option (n.add a o.price_delta) os

  line_estimate-qr_new_line :
      (uuid : String) (d : QrDialog N)
      → line_estimate (record { id = uuid; body = qr_new_line d }) ≡ qr_shown_estimate d
  unfolding line_estimate qr_new_line qr_shown_estimate
  line_estimate-qr_new_line uuid d =
      ap (λ t. n.mul (n.add (qr_unit_estimate d) t) d.quantity)
        (qr_foldl-cart_option (n.of_ℕ 0) (qr_selected_options d))

  -- Pressing the guest's add button for a dish that can be added raises the cart's subtotal by
  -- exactly the total that the dialog showed, as the same sum of numbers.
  pub subtotal-qr_press_add :
      (uuid : String) (d : QrDialog N) (lines : List (CartLine N))
      → qr_can_add d ≡ true
      → cart_estimated_subtotal (qr_press_add uuid d lines)
        ≡ n.add (cart_estimated_subtotal lines) (qr_shown_estimate d)
  unfolding qr_press_add
  subtotal-qr_press_add uuid d lines ok =
      rw (ok) (subtotal-add_line uuid (qr_new_line d) lines)
      ∙ ap (n.add (cart_estimated_subtotal lines)) (line_estimate-qr_new_line uuid d)

  variant_set :
      (vs : List (QrMenuVariantOut N)) (d : Option (QrMenuVariantOut N))
      → every (λ w. is_truthy w.id) vs ≡ true
      → find (λ v. v.is_default) vs ≡ d
      → (has_none vs ≡ true) ⊎ (is_set (qr_default_variant_id vs) ≡ true)
  unfolding qr_default_variant_id
  variant_set [] d ids h = ground arith
  variant_set (v ∷ vs) none ids h = rw (h, qr_default_variant_id) (ground arith)
  variant_set (v ∷ vs) (some w) ids h =
      rw (h, qr_default_variant_id)
        (ground (arith, find-default_set (λ u. u.is_default) (v ∷ vs) w ids h))

  -- A dish none of whose groups is required can be added as soon as its dialog opens: a variant is
  -- chosen from the start wherever there are variants, whose ids are not empty.
  pub qr_can_add-qr_open_item :
      (item : QrMenuItemOut N)
      → every (λ v. is_truthy v.id) item.variants ≡ true
      → every (λ g. not g.is_required) item.option_groups ≡ true
      → qr_can_add (qr_open_item item) ≡ true
  unfolding qr_can_add qr_open_item
  qr_can_add-qr_open_item item ids free = ground (
    arith,
    variant_set item.variants (find (λ v. v.is_default) item.variants) ids refl,
    no_group_required (λ _. []) item.option_groups free,
  )
