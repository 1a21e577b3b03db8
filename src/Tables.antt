-- ===== src/Tables.antt =====
-- Moving a table's order: frontend/src/features/tables/components/TableMoveDialog.tsx. The tables and
-- the sessions that are open at them are arguments, as they are props of the dialog.
pub mod Backend
pub mod Moves
pub mod Floor
mod Tests
use why_not_grace_pos.Prelude.{
  ℕ, String, Bool, true, false, not, ◌&&◌, Option, none, some, List, [], ◌∷◌, ◌++◌, ◌==◌, keep,
  is_truthy, is_set, if◌then◌else◌,
}

pub data LocationStatus : Type 0 where
  available occupied ordering kitchen ready served bill_pending paid closed : LocationStatus

pub record LocationOut : Type 0 where
  pub id : String
  pub location_type : String
  pub name : String
  pub capacity : Option ℕ
  pub floor : Option String
  pub room_type : Option String
  pub status : LocationStatus
  pub is_active : Bool
  pub qr_url : Option String

unfoldable pub is_available : LocationStatus → Bool
is_available available = true
is_available _ = false

pub data Mode : Type 0 where
  transfer merge : Mode

pub data MoveCall : Type 0 where
  transfer_session : String → String → MoveCall
  merge_sessions : String → String → MoveCall

-- The props: the table whose order moves, its session, all tables, and the sessions by table.
pub record MoveProps : Type 0 where
  pub table : Option LocationOut
  pub session_id : Option String
  pub all_tables : List LocationOut
  pub session_id_by_location : String → Option String

-- `calls` are the requests that were made, oldest first.
pub record MoveDialog : Type 0 where
  pub mode : Mode
  pub target_id : String
  pub error : Option String
  pub calls : List MoveCall

abbrev pub is_table : Option LocationOut → String → Bool
is_table none id = false
is_table (some t) id = id == t.id

abbrev pub has_entry : Option String → Bool
has_entry none = false
has_entry (some s) = true

unfoldable pub is_free_table : MoveProps → LocationOut → Bool
unfolding is_available
is_free_table p t = not (is_table p.table t.id) && is_available t.status

unfoldable pub is_taken_table : MoveProps → LocationOut → Bool
unfolding is_available
is_taken_table p t =
    not (is_table p.table t.id)
    && not (is_available t.status)
    && has_entry (p.session_id_by_location t.id)

unfoldable pub is_option : MoveProps → Mode → LocationOut → Bool
unfolding is_free_table is_taken_table
is_option p transfer = is_free_table p
is_option p merge = is_taken_table p

unfoldable pub options : MoveProps → Mode → List LocationOut
unfolding is_option
options p mode = keep (is_option p mode) p.all_tables

abbrev pub reset : List MoveCall → MoveDialog
reset calls = record { mode = transfer; target_id = ""; error = none; calls = calls }

-- The two buttons for the mode.
unfoldable pub set_mode : Mode → MoveDialog → MoveDialog
set_mode mode d = record d { mode = mode; target_id = ""; error = none }

-- The button of one of the options.
unfoldable pub set_target : LocationOut → MoveDialog → MoveDialog
set_target t d = record d { target_id = t.id }

unfoldable pub move_call : MoveProps → String → MoveDialog → Option MoveCall
move_call p session d = elim d.mode [
  | transfer ↦ some (transfer_session session d.target_id)
  | merge ↦ elim (p.session_id_by_location d.target_id) [
    | none ↦ none
    | some into ↦ if is_truthy into then some (merge_sessions session into) else none
  ]
]

abbrev pub with_call : Option MoveCall → MoveDialog → MoveDialog
with_call none d = record d { error = none }
with_call (some call) d = record d { error = none; calls = d.calls ++ (call ∷ []) }

unfoldable pub confirm_for : MoveProps → Option String → MoveDialog → MoveDialog
unfolding move_call
confirm_for p none d = d
confirm_for p (some session) d =
    if is_truthy session && is_truthy d.target_id then with_call (move_call p session d) d else d

abbrev pub has_table : Option LocationOut → Bool
has_table none = false
has_table (some t) = true

-- `handleConfirm`.
unfoldable pub handle_confirm : MoveProps → MoveDialog → MoveDialog
unfolding confirm_for
handle_confirm p d = if has_table p.table then confirm_for p p.session_id d else d

-- What the backend answers: `handleClose` or `setError`.
unfoldable pub move_succeeded : MoveDialog → MoveDialog
move_succeeded d = reset d.calls

unfoldable pub move_failed : String → MoveDialog → MoveDialog
move_failed message d = record d { error = some message }
