-- ===== src/Billing/Backend.antt =====
-- What the service does with a bill's corrections: the guards of
-- backend/app/services/billing_service.py. A call is accepted or refused; `strip` is Python's own.
use why_not_grace_pos.Prelude.{
  String, Bool, true, false, not, ◌&&◌, ◌||◌, ◌==◌, Option, none, some, find, is_truthy,
}
use why_not_grace_pos.Access.{UserRole}
use why_not_grace_pos.Billing.{BillStatus, paid, cancelled}
use why_not_grace_pos.Billing.Items.{
  BillItemOut, BillLines, voids, comps, LineCall, removes, uncomps,
}
use why_not_grace_pos.Progress.Backend.{role_operational}

-- The toggles of the business that the guards read.
pub record Toggles : Type 0 where
  pub void_requires_manager : Bool
  pub void_requires_reason : Bool
  pub comp_requires_manager : Bool
  pub comp_requires_reason : Bool

-- `is not None`.
abbrev pub has : Option String → Bool
has none = false
has (some s) = true

abbrev pub is_cancelled : BillStatus → Bool
is_cancelled cancelled = true
is_cancelled _ = false

abbrev pub is_closed : BillStatus → Bool
is_closed paid = true
is_closed cancelled = true
is_closed _ = false

module _ (strip : String → String) where
  -- `reason and reason.strip()`.
  abbrev pub has_reason : Option String → Bool
  has_reason none = false
  has_reason (some s) = is_truthy s && is_truthy (strip s)

  unfoldable pub void_authority : Toggles → UserRole → Option String → Bool
  unfolding role_operational
  void_authority t role reason =
      (not t.void_requires_manager || role_operational role)
      && (not t.void_requires_reason || has_reason reason)

  unfoldable pub require_comp_authority : Toggles → UserRole → Option String → Bool
  unfolding role_operational
  require_comp_authority t role reason =
      (not t.comp_requires_manager || role_operational role)
      && (not t.comp_requires_reason || has_reason reason)

  unfoldable pub void_bill : Toggles → UserRole → Option String → BillStatus → Bool
  unfolding void_authority
  void_bill t role reason status = not (is_cancelled status) && void_authority t role reason

  unfoldable pub mark_bill_nc :
      Toggles → UserRole → Option String → BillStatus → Option String → Bool → Bool
  unfolding require_comp_authority
  mark_bill_nc t role reason status nc_at has_payment =
      not (is_cancelled status)
      && not (has nc_at)
      && not has_payment
      && require_comp_authority t role reason

  unfoldable pub void_bill_item :
      Toggles → UserRole → Option String → BillStatus → Option BillItemOut → Bool
  unfolding void_authority
  void_bill_item t role reason status none = false
  void_bill_item t role reason status (some i) =
      not (is_closed status) && not (has i.voided_at) && void_authority t role reason

  unfoldable pub comp_bill_item :
      Toggles → UserRole → Option String → BillStatus → Option BillItemOut → Bool
  unfolding require_comp_authority
  comp_bill_item t role reason status none = false
  comp_bill_item t role reason status (some i) =
      not (is_closed status)
      && not (has i.voided_at)
      && not (has i.comped_at)
      && require_comp_authority t role reason

  unfoldable pub uncomp_bill_item :
      Toggles → UserRole → BillStatus → Option String → Option BillItemOut → Bool
  unfolding require_comp_authority
  uncomp_bill_item t role status nc_at none = false
  uncomp_bill_item t role status nc_at (some i) =
      not (is_closed status)
      && not (has nc_at)
      && has i.comped_at
      && require_comp_authority t role (some "uncomp")

  -- The answer to a call of the list of lines.
  unfoldable pub accepts : Toggles → UserRole → BillLines → LineCall → Bool
  unfolding void_bill_item comp_bill_item uncomp_bill_item
  accepts t role b (removes voids bill_id id reason) =
      void_bill_item t role reason b.status (find (λ i. BillItemOut.id i == id) b.items)
  accepts t role b (removes comps bill_id id reason) =
      comp_bill_item t role reason b.status (find (λ i. BillItemOut.id i == id) b.items)
  accepts t role b (uncomps bill_id id) =
      uncomp_bill_item t role b.status b.nc_at (find (λ i. BillItemOut.id i == id) b.items)
