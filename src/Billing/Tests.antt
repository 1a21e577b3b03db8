-- ===== src/Billing/Tests.antt =====
-- The theorems about payments and discounts at concrete bills, in whole rupees.
use why_not_grace_pos.Prelude.{
  ◌≡◌, ◌&&◌, refl, false, trim, ℕ, String, true, some, none, List, [], ◌∷◌, ◌==◌, if◌then◌else◌,
  whole_Number,
}
use why_not_grace_pos.Billing.{BillOut, open_bill, upi, open_panel, DiscountForm, by_percent}
use why_not_grace_pos.Billing.Items.{
  BillLines, voids, LineEvent, presses, types_reason, submits, undoes,
}
use why_not_grace_pos.Access.{cash_counter}
use why_not_grace_pos.Billing.Backend.{
  Toggles, void_authority, require_comp_authority, void_bill, mark_bill_nc,
}
use why_not_grace_pos.Billing.Whole.{shows_void, shows_no_charge}
use why_not_grace_pos.Billing.Accepted.{shows_void-void_bill}
use why_not_grace_pos.Billing.Served.{LineAnswer}
use why_not_grace_pos.Billing.Payments.{
  PanelEvent, tabs, types_amount, types_received, confirms, panel_run, IsSound, panel_run_opened,
}

abbrev number_of : String → ℕ
number_of s = if s == "200" then 200 else if s == "10" then 10 else 0

abbrev text_of : ℕ → String
text_of n = "200"

abbrev dinner : BillOut ℕ
dinner = record { id = "b1"; status = open_bill; grand_total = 500; amount_paid = 300 }

abbrev till : List (PanelEvent ℕ)
till = tabs dinner upi ∷ types_amount "10" ∷ confirms dinner ∷ types_received "200" ∷ []

panel_run_opened_example :
    IsSound (panel_run number_of text_of (open_panel number_of text_of dinner) till)
panel_run_opened_example = panel_run_opened number_of text_of dinner till

abbrev regular : DiscountForm ℕ
regular = record {
  is_open = true;
  name = "regular guest";
  mode = by_percent;
  value = "10";
  reason = "";
  error = none;
  applied = [];
}

abbrev lunch : BillLines
lunch = record {
  id = "b2";
  status = open_bill;
  nc_at = none;
  items =
      record { id = "l1"; voided_at = none; comped_at = none }
      ∷ record { id = "l2"; voided_at = none; comped_at = some "2026-01-05T12:00:00Z" }
      ∷ [];
}

abbrev answered : LineAnswer
answered = record { now = "2026-01-05T13:00:00Z"; status = open_bill; message = "" }

-- The second submission finds no row that asks, and the last call undoes a comp.
abbrev corrections : List (LineEvent × LineAnswer)
corrections =
    (presses voids "l1", answered)
    ∷ (types_reason " dropped ", answered)
    ∷ (submits, answered)
    ∷ (submits, answered)
    ∷ (undoes "l2", answered)
    ∷ []

-- A business that wants a manager for voids and a reason for both.
abbrev strict : Toggles
strict = record {
  void_requires_manager = true;
  void_requires_reason = true;
  comp_requires_manager = false;
  comp_requires_reason = true;
}

shows_void-void_bill_example :
    (void_bill trim strict cash_counter (some "spilt") open_bill
      ≡ (shows_void open_bill && void_authority trim strict cash_counter (some "spilt")))
    × ((shows_no_charge open_bill none false
          && mark_bill_nc trim strict cash_counter (some "spilt") open_bill none false)
        ≡ (shows_no_charge open_bill none false
            && require_comp_authority trim strict cash_counter (some "spilt")))
shows_void-void_bill_example =
    shows_void-void_bill trim strict cash_counter (some "spilt") open_bill none false refl
