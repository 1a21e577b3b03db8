-- ===== src/Billing.antt =====
-- Taking a payment and giving a discount: frontend/src/features/billing/components/PaymentPanel.tsx
-- and frontend/src/features/billing/components/DiscountForm.tsx. `Number(text)` and `String(number)`
-- are the language's own conversions, and arguments here.
pub mod Payments
pub mod Discounts
pub mod Items
pub mod Lines
pub mod Backend
pub mod Served
pub mod Whole
pub mod Accepted
mod Tests
use why_not_grace_pos.Prelude.{
  ℕ, String, Bool, true, false, not, ◌&&◌, ◌||◌, Option, none, some, List, [], ◌∷◌, ◌++◌, Number,
  is_truthy, or_none, trim, if◌then◌else◌,
}

pub data BillStatus : Type 0 where
  open_bill partially_paid paid cancelled : BillStatus

-- Of `BillOut`, what the two components read.
pub record BillOut {ℓ} (N : Type ℓ) : Type ℓ where
  pub id : String
  pub status : BillStatus
  pub grand_total : N
  pub amount_paid : N

pub data PaymentMethod : Type 0 where
  cash upi card online other : PaymentMethod

pub record ManualPayment {ℓ} (N : Type ℓ) : Type ℓ where
  pub bill_id : String
  pub amount : N
  pub method : PaymentMethod

pub record PaymentPanel {ℓ} (N : Type ℓ) : Type ℓ where
  pub tab : PaymentMethod
  pub amount : String
  pub received : String
  pub received_touched : Bool
  pub error : Option String
  pub recorded : List (ManualPayment N)

module _ {ℓ} {N : Type ℓ} ⦃n : Number N⦄ where
  -- `Math.max(0, x)`.
  abbrev pub at_least_0 : N → N
  at_least_0 x = if n.le x (n.of_ℕ 0) then n.of_ℕ 0 else x

  unfoldable pub remaining : BillOut N → N
  remaining b =
      at_least_0
        (n.div (n.round (n.mul (n.sub b.grand_total b.amount_paid) (n.of_ℕ 100))) (n.of_ℕ 100))

module _ {ℓ} {N : Type ℓ} ⦃n : Number N⦄ (number_of : String → N) (text_of : N → String) where
  unfoldable pub change_to_return : PaymentPanel N → N
  change_to_return p = at_least_0 (n.sub (number_of p.received) (number_of p.amount))

  -- The panel when it opens, and the fields that the effect and a tab set again.
  unfoldable pub fill : N → PaymentPanel N → PaymentPanel N
  fill rest p = record p {
    amount = text_of rest;
    received = text_of rest;
    received_touched = false;
  }

  unfoldable pub open_panel : BillOut N → PaymentPanel N
  unfolding remaining
  open_panel b = record {
    tab = cash;
    amount = text_of (remaining b);
    received = text_of (remaining b);
    received_touched = false;
    error = none;
    recorded = [];
  }

  unfoldable pub set_tab : BillOut N → PaymentMethod → PaymentPanel N → PaymentPanel N
  unfolding fill remaining
  set_tab b method p = fill (remaining b) (record p { tab = method; error = none })

  unfoldable pub type_amount : String → PaymentPanel N → PaymentPanel N
  type_amount text p =
      if not p.received_touched
      then record p { amount = text; received = text }
      else record p { amount = text }

  unfoldable pub type_received : String → PaymentPanel N → PaymentPanel N
  type_received text p = record p { received_touched = true; received = text }

  unfoldable pub handle_manual_confirm : String → BillOut N → PaymentPanel N → PaymentPanel N
  handle_manual_confirm invalid b p =
      if not (n.lt (n.of_ℕ 0) (number_of p.amount))
      then record p { error = some invalid }
      else record p {
        error = none;
        recorded =
            p.recorded
            ++ (record { bill_id = b.id; amount = number_of p.amount; method = p.tab } ∷ []);
      }

pub data DiscountMode : Type 0 where
  by_percent by_amount : DiscountMode

abbrev pub is_percent : DiscountMode → Bool
is_percent by_percent = true
is_percent by_amount = false

pub record ApplyDiscountRequest {ℓ} (N : Type ℓ) : Type ℓ where
  pub name : String
  pub percent : Option N
  pub amount : Option N
  pub reason : Option String

pub record DiscountForm {ℓ} (N : Type ℓ) : Type ℓ where
  pub is_open : Bool
  pub name : String
  pub mode : DiscountMode
  pub value : String
  pub reason : String
  pub error : Option String
  pub applied : List (String × ApplyDiscountRequest N)

module _ {ℓ} {N : Type ℓ} where
  abbrev pub in_mode : Bool → N → Option N
  in_mode true value = some value
  in_mode false value = none

  unfoldable pub discount_request : N → DiscountForm N → ApplyDiscountRequest N
  discount_request numeric f = record {
    name = trim f.name;
    percent = in_mode (is_percent f.mode) numeric;
    amount = in_mode (not (is_percent f.mode)) numeric;
    reason = or_none (trim f.reason);
  }

  unfoldable pub discount_applied : DiscountForm N → DiscountForm N
  discount_applied f = record f { is_open = false; name = ""; value = ""; reason = "" }

  unfoldable pub discount_failed : String → DiscountForm N → DiscountForm N
  discount_failed message f = record f { error = some message }

module _ {ℓ} {N : Type ℓ} ⦃n : Number N⦄ (number_of : String → N) where
  unfoldable pub handle_apply : String → BillOut N → DiscountForm N → DiscountForm N
  unfolding discount_request
  handle_apply invalid b f =
      let numeric = number_of f.value in
      if not (is_truthy (trim f.name)) || not (n.lt (n.of_ℕ 0) numeric)
      then record f { error = some invalid }
      else record f {
        error = none;
        applied = f.applied ++ ((b.id, discount_request numeric f) ∷ []);
      }
