-- ===== src/Billing/Whole.antt =====
-- The buttons for a whole bill: frontend/src/features/billing/components/VoidBillButton.tsx and
-- frontend/src/features/billing/components/NoChargeButton.tsx, which are alike but for when they are
-- shown and what they post.
use why_not_grace_pos.Prelude.{
  String, Bool, true, false, ◌||◌, Option, none, some, List, [], ◌∷◌, ◌++◌, is_set, or_none, trim,
  if◌then◌else◌,
}
use why_not_grace_pos.Billing.{BillStatus, paid, cancelled}

unfoldable pub shows_void : BillStatus → Bool
shows_void cancelled = false
shows_void _ = true

-- `bill.status === "PAID" || bill.status === "CANCELLED"`.
abbrev pub is_settled : BillStatus → Bool
is_settled paid = true
is_settled cancelled = true
is_settled _ = false

-- `bill.amount_paid > 0` is the last argument.
unfoldable pub shows_no_charge : BillStatus → Option String → Bool → Bool
shows_no_charge status nc_at has_payment =
    if is_settled status || is_set nc_at then false else if has_payment then false else true

-- The form that asks for a reason; `posted` are the reasons that were sent.
pub record ReasonForm : Type 0 where
  pub is_open : Bool
  pub reason : String
  pub error : Option String
  pub posted : List (Option String)

pub data ReasonEvent : Type 0 where
  opens cancels_form submits_reason succeeds : ReasonEvent
  types_reason fails : String → ReasonEvent

unfoldable pub reason_step : ReasonForm → ReasonEvent → ReasonForm
reason_step f opens = record f { is_open = true }
reason_step f cancels_form = record f { is_open = false }
reason_step f (types_reason s) = if f.is_open then record f { reason = s } else f
reason_step f submits_reason =
    if f.is_open
    then record f { error = none; posted = f.posted ++ (or_none (trim f.reason) ∷ []) }
    else f
reason_step f succeeds = record f { is_open = false; reason = "" }
reason_step f (fails message) = record f { error = some message }
