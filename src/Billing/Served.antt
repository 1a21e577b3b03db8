-- ===== src/Billing/Served.antt =====
-- The list of a bill's lines and the service together: each call is answered before the next event,
-- and the bill that the service stored is then the one that is shown.
pub mod Accepts
use why_not_grace_pos.Prelude.{
  String, ◌==◌, Option, none, some, List, [], ◌∷◌, ◌++◌, map, if◌then◌else◌,
}
use why_not_grace_pos.Access.{UserRole}
use why_not_grace_pos.Billing.{BillStatus}
use why_not_grace_pos.Billing.Items.{
  BillItemOut, BillLines, voids, comps, LineCall, removes, uncomps, ItemsList, LineEvent,
  items_step,
}
use why_not_grace_pos.Billing.Backend.{Toggles, accepts}

-- With an answer come the service's time, the status that the new totals give, and the message of a
-- refusal.
pub record LineAnswer : Type 0 where
  pub now : String
  pub status : BillStatus
  pub message : String

abbrev pub change_item : String → LineCall → BillItemOut → BillItemOut
change_item now (removes voids bill_id id reason) i =
    if i.id == id then record i { voided_at = some now } else i
change_item now (removes comps bill_id id reason) i =
    if i.id == id then record i { comped_at = some now } else i
change_item now (uncomps bill_id id) i = if i.id == id then record i { comped_at = none } else i

-- The undoing of a comp does not lower the total, and so leaves the status of an open bill.
abbrev pub status_after : LineAnswer → LineCall → BillStatus → BillStatus
status_after o (removes kind bill_id id reason) status = o.status
status_after o (uncomps bill_id id) status = status

-- The bill that an accepted call leaves.
unfoldable pub store_call : LineAnswer → LineCall → BillLines → BillLines
store_call o call b = record b {
  status = status_after o call b.status;
  items = map (change_item o.now call) b.items;
}

-- `onSuccess` and `onError`: a void or a comp closes its row or shows the message in it.
abbrev pub call_succeeded : LineCall → ItemsList → ItemsList
call_succeeded (removes kind bill_id id reason) l = record l { pending = none }
call_succeeded (uncomps bill_id id) l = l

abbrev pub call_failed : String → LineCall → ItemsList → ItemsList
call_failed message (removes kind bill_id id reason) l = record l { error = some message }
call_failed message (uncomps bill_id id) l = l

-- `sent` are the calls, each with the bill that the service had when it answered.
pub record Served : Type 0 where
  pub bill : BillLines
  pub list : ItemsList
  pub sent : List (BillLines × LineCall)

module _ (strip : String → String) (t : Toggles) (role : UserRole) where
  unfoldable pub answer_call : LineAnswer → Served → List LineCall → Served
  unfolding store_call
  answer_call o s [] = s
  answer_call o s (c ∷ cs) =
      if accepts strip t role s.bill c
      then record {
        bill = store_call o c s.bill;
        list = call_succeeded c s.list;
        sent = s.sent ++ ((s.bill, c) ∷ []);
      }
      else record s { list = call_failed o.message c s.list; sent = s.sent ++ ((s.bill, c) ∷ []) }

  -- An event, and the answer to the call that it makes, if it makes one.
  unfoldable pub served_step : Served → LineEvent × LineAnswer → Served
  unfolding answer_call
  served_step s (e, o) =
      let l = items_step s.bill (record s.list { calls = [] }) e in
      answer_call o (record s { list = l }) l.calls

  unfoldable pub served_run : Served → List (LineEvent × LineAnswer) → Served
  unfolding served_step
  served_run s [] = s
  served_run s (e ∷ es) = served_run (served_step s e) es
