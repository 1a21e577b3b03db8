-- ===== src/Cart/Tests.antt =====
-- The theorems about carts at concrete lines, in whole rupees.
use why_not_grace_pos.Prelude.{
  ℕ, ◌+◌, String, true, none, List, [], ◌∷◌, ◌≡◌, refl, whole_Number, false, leb, arith,
}
use why_not_grace_pos.Cart.{CartLine, LineBody, set_quantity, cart_estimated_subtotal}
use why_not_grace_pos.Cart.Lines.{
  adds, sets, removes, line_of, line_of-set_quantity, act, act_all, IsCart, act_all-IsCart,
}

abbrev body : String → ℕ → ℕ → LineBody ℕ
body name price quantity = record {
  menu_item_id = name;
  item_name = name;
  is_veg = true;
  unit_estimate = price;
  variant_id = none;
  variant_name = none;
  options = record { id = "o1"; name = "extra ghee"; price_delta = 20 } ∷ [];
  quantity = quantity;
  special_instructions = none;
}

abbrev dosa : CartLine ℕ
dosa = record { id = "l1"; body = body "dosa" 120 2 }

abbrev idli : CartLine ℕ
idli = record { id = "l2"; body = body "idli" 60 1 }

abbrev tray : List (CartLine ℕ)
tray = dosa ∷ idli ∷ []

tray_subtotal : cart_estimated_subtotal tray ≡ 360
unfolding cart_estimated_subtotal
tray_subtotal = refl

line_of-set_quantity_example : line_of "l1" (set_quantity "l1" 0 tray) ≡ none
line_of-set_quantity_example = line_of-set_quantity "l1" "l1" 0 tray

act_all-IsCart_example :
    IsCart
      (act_all (adds "l1" dosa.body ∷ adds "l2" idli.body ∷ sets "l1" 0 ∷ removes "l9" ∷ []) [])
unfolding act
act_all-IsCart_example =
    act_all-IsCart (adds "l1" dosa.body ∷ adds "l2" idli.body ∷ sets "l1" 0 ∷ removes "l9" ∷ [])
      ((refl, refl), ((refl, refl), (tt, (tt, tt))))

raised : (q : ℕ) → leb q 0 ≡ false → leb (q + 1) 0 ≡ false
raised q h = ground arith
