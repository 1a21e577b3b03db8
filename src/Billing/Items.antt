-- ===== src/Billing/Items.antt =====
-- The lines of a bill: frontend/src/features/billing/components/BillItemsList.tsx. `Boolean(text)` of a
-- time that may be missing is `is_set`.
use why_not_grace_pos.Prelude.{
  String, Bool, true, false, not, ◌&&◌, ◌==◌, Option, none, some, List, [], ◌∷◌, ◌++◌, find, is_set,
  or_none, trim, if◌then◌else◌,
}
use why_not_grace_pos.Billing.{BillStatus, paid, cancelled}

-- Of `BillItemOut` and `BillOut`, what the list decides by.
pub record BillItemOut : Type 0 where
  pub id : String
  pub voided_at : Option String
  pub comped_at : Option String

pub record BillLines : Type 0 where
  pub id : String
  pub status : BillStatus
  pub nc_at : Option String
  pub items : List BillItemOut

pub data Kind : Type 0 where
  voids comps : Kind

-- `PendingAction`.
pub record PendingAction : Type 0 where
  pub item_id : String
  pub kind : Kind

pub data LineCall : Type 0 where
  removes : Kind → String → String → Option String → LineCall
  uncomps : String → String → LineCall

-- The list with the one row that asks, and the calls that were made.
pub record ItemsList : Type 0 where
  pub pending : Option PendingAction
  pub reason : String
  pub error : Option String
  pub calls : List LineCall

abbrev pub no_action : ItemsList
no_action = record { pending = none; reason = ""; error = none; calls = [] }

unfoldable pub is_open : BillLines → Bool
is_open b = is_open_status b.status
  where
    is_open_status : BillStatus → Bool
    is_open_status paid = false
    is_open_status cancelled = false
    is_open_status _ = true

-- When an item's row shows its buttons to void and to comp it, and its button to undo a comp.
unfoldable pub offers_removal : BillLines → BillItemOut → Bool
unfolding is_open
offers_removal b i = is_open b && not (is_set i.voided_at) && not (is_set i.comped_at)

unfoldable pub offers_uncomp : BillLines → BillItemOut → Bool
unfolding is_open
offers_uncomp b i = is_open b && is_set i.comped_at && not (is_set b.nc_at)

abbrev pub is_pending : String → Option PendingAction → Bool
is_pending id none = false
is_pending id (some p) = p.item_id == id

-- The item's row stands there with this button: it is on the bill and no row asks in its place.
abbrev pub row_of : BillLines → String → ItemsList → Option BillItemOut
row_of b id l = if is_pending id l.pending then none else find (λ i. BillItemOut.id i == id) b.items

-- `onVoid` and `onComp`; the row that asks starts empty.
unfoldable pub press_removal : Kind → BillLines → Option BillItemOut → ItemsList → ItemsList
press_removal kind b none l = l
press_removal kind b (some i) l =
    if offers_removal b i
    then record l {
      pending = some (record { item_id = i.id; kind = kind });
      reason = "";
      error = none;
    }
    else l

unfoldable pub press_uncomp : BillLines → Option BillItemOut → ItemsList → ItemsList
press_uncomp b none l = l
press_uncomp b (some i) l =
    if offers_uncomp b i then record l { calls = l.calls ++ (uncomps b.id i.id ∷ []) } else l

-- `submit`, of the row that asks.
unfoldable pub submit_pending : BillLines → Option PendingAction → ItemsList → ItemsList
submit_pending b none l = l
submit_pending b (some p) l = record l {
  error = none;
  calls = l.calls ++ (removes p.kind b.id p.item_id (or_none (trim l.reason)) ∷ []);
}

pub data LineEvent : Type 0 where
  presses : Kind → String → LineEvent
  undoes : String → LineEvent
  types_reason : String → LineEvent
  submits cancels_row : LineEvent
  done : LineEvent
  refused : String → LineEvent

unfoldable pub items_step : BillLines → ItemsList → LineEvent → ItemsList
unfolding press_removal press_uncomp submit_pending
items_step b l (presses kind id) = press_removal kind b (row_of b id l) l
items_step b l (undoes id) = press_uncomp b (row_of b id l) l
items_step b l (types_reason s) = record l { reason = s }
items_step b l submits = submit_pending b l.pending l
items_step b l cancels_row = record l { pending = none }
items_step b l done = record l { pending = none }
items_step b l (refused message) = record l { error = some message }
