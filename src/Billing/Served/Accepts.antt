-- ===== src/Billing/Served/Accepts.antt =====
-- What the list of a bill's lines asks for against what the service accepts.
use why_not_grace_pos.Prelude.{String, ◌≡◌, All}
use why_not_grace_pos.Access.{UserRole}
use why_not_grace_pos.Billing.Items.{BillItemOut, BillLines, LineCall}
use why_not_grace_pos.Billing.Lines.{IsAsked}
use why_not_grace_pos.Billing.Backend.{Toggles, accepts}
use why_not_grace_pos.Billing.Accepted.{IsTime, IsTimed, IsDistinct, authority}
use why_not_grace_pos.Billing.Served.{Served}

abbrev HasTimes : BillItemOut → Type 0
HasTimes i = IsTime (BillItemOut.voided_at i) × IsTime (BillItemOut.comped_at i)

module _ (strip : String → String) (t : Toggles) (role : UserRole) where
  abbrev pub IsJudged : BillLines × LineCall → Type 0
  IsJudged (b, c) = accepts strip t role b c ≡ authority strip t role c

  abbrev IsServed : Served → Type 0
  IsServed s =
      IsTimed s.bill × IsDistinct s.bill.items × IsAsked s.bill s.list.pending × All IsJudged s.sent
