-- ===== src/Cart.antt =====
-- The lines of a cart: frontend/src/stores/cartStore.ts (and, with the same code, qrCartStore.ts).
-- `N` is the type of numbers; `crypto.randomUUID()` is an argument, the id of the new line.
pub mod Lines
pub mod Select
pub mod Subtotal
mod Tests
use why_not_grace_pos.Prelude.{
  ℕ, String, Bool, true, false, not, Option, none, some, List, [], ◌∷◌, ◌++◌, map, ◌==◌, keep,
  Number, if◌then◌else◌,
}
use mathlib.Core.List.{foldl}

pub record CartLineOption {ℓ} (N : Type ℓ) : Type ℓ where
  pub id : String
  pub name : String
  pub price_delta : N

-- `Omit<CartLine, "id">`.
pub record LineBody {ℓ} (N : Type ℓ) : Type ℓ where
  pub menu_item_id : String
  pub item_name : String
  pub is_veg : Bool
  pub unit_estimate : N
  pub variant_id : Option String
  pub variant_name : Option String
  pub options : List (CartLineOption N)
  pub quantity : N
  pub special_instructions : Option String

pub record CartLine {ℓ} (N : Type ℓ) : Type ℓ where
  pub id : String
  pub body : LineBody N
  pub open body use *

module _ {ℓ} {N : Type ℓ} where
  unfoldable pub add_line : String → LineBody N → List (CartLine N) → List (CartLine N)
  add_line uuid body lines = lines ++ (record { id = uuid; body = body } ∷ [])

  unfoldable pub remove_line : String → List (CartLine N) → List (CartLine N)
  remove_line id = keep (λ l. not (l.id == id))

  abbrev pub with_quantity : N → CartLine N → CartLine N
  with_quantity q l = record l { body = record (l.body) { quantity = q } }

module _ {ℓ} {N : Type ℓ} ⦃n : Number N⦄ where
  unfoldable pub set_quantity : String → N → List (CartLine N) → List (CartLine N)
  unfolding remove_line
  set_quantity id q lines =
      if n.le q (n.of_ℕ 0)
      then remove_line id lines
      else map (λ l. if l.id == id then with_quantity q l else l) lines

  unfoldable pub options_total : List (CartLineOption N) → N
  options_total = foldl (λ s o. n.add s o.price_delta) (n.of_ℕ 0)

  unfoldable pub line_estimate : CartLine N → N
  unfolding options_total
  line_estimate l = n.mul (n.add l.unit_estimate (options_total l.options)) l.quantity

  unfoldable pub cart_estimated_subtotal : List (CartLine N) → N
  unfolding line_estimate
  cart_estimated_subtotal = foldl (λ sum l. n.add sum (line_estimate l)) (n.of_ℕ 0)
