-- ===== src/Customize/Estimate.antt =====
-- The dialog and the cart agree on what a line costs.
use mathlib.Core.List.{foldl}
use why_not_grace_pos.Prelude.{String, true, ◌≡◌, refl, ap, ◌∙◌, List, [], ◌∷◌, map, Number}
use why_not_grace_pos.Menu.{MenuOptionOut}
use why_not_grace_pos.Cart.{CartLine, line_estimate, cart_estimated_subtotal}
use why_not_grace_pos.Cart.Subtotal.{subtotal-add_line}
use why_not_grace_pos.Customize.{
  Dialog, can_add, all_selected_options, cart_option, unit_estimate, shown_estimate, new_line,
  press_add,
}

module _ {ℓ} {N : Type ℓ} ⦃n : Number N⦄ where
  foldl-cart_option :
      (a : N) (os : List (MenuOptionOut N))
      → foldl (λ s o. n.add s o.price_delta) a (map cart_option os)
        ≡ foldl (λ s o. n.add s o.price_delta) a os
  unfolding cart_option
  foldl-cart_option a [] = refl
  foldl-cart_option a (o ∷ os) = foldl-cart_option (n.add a o.price_delta) os

  line_estimate-new_line :
      (uuid : String) (d : Dialog N)
      → line_estimate (record { id = uuid; body = new_line d }) ≡ shown_estimate d
  unfolding line_estimate new_line shown_estimate
  line_estimate-new_line uuid d =
      ap (λ t. n.mul (n.add (unit_estimate d) t) d.quantity)
        (foldl-cart_option (n.of_ℕ 0) (all_selected_options d))

  -- Pressing the add button of an item that can be added raises the cart's subtotal by exactly the
  -- total that the dialog showed, as the same sum of numbers; no law of numbers is needed.
  pub subtotal-press_add :
      (uuid : String) (d : Dialog N) (lines : List (CartLine N))
      → can_add d ≡ true
      → cart_estimated_subtotal (press_add uuid d lines)
        ≡ n.add (cart_estimated_subtotal lines) (shown_estimate d)
  unfolding press_add
  subtotal-press_add uuid d lines ok =
      rw (ok) (subtotal-add_line uuid (new_line d) lines)
      ∙ ap (n.add (cart_estimated_subtotal lines)) (line_estimate-new_line uuid d)
