-- ===== src/Tables/Tests.antt =====
-- The theorem about moves on a concrete floor.
use why_not_grace_pos.Prelude.{
  Bool, true, false, Option, some, none, List, [], ◌∷◌, ◌==◌, arith, String, ◌≡◌, refl, sym, inl,
  inr, All, if◌then◌else◌,
}
use why_not_grace_pos.Tables.{
  LocationOut, LocationStatus, available, occupied, MoveProps, MoveDialog, options, reset, merge,
  set_target, set_mode, move_failed, handle_confirm, transfer_session, merge_sessions,
}
use why_not_grace_pos.Grouping.{OrderOut}
use why_not_grace_pos.Progress.{OrderStatus}
use why_not_grace_pos.Tables.Moves.{Among, Reached, opens, chooses, targets, confirms, fails}
use why_not_grace_pos.Tables.Floor.{move_props, Held, IsInStep, passes_rest, Reached-accepts_move}
use why_not_grace_pos.Tables.Backend.{StoredSession, accepts_move}

abbrev table : String → LocationStatus → LocationOut
table id status = record {
  id = id;
  location_type = "TABLE";
  name = id;
  capacity = some 4;
  floor = none;
  room_type = none;
  status = status;
  is_active = true;
  qr_url = none;
}

abbrev t1 : LocationOut
t1 = table "t1" occupied

abbrev t2 : LocationOut
t2 = table "t2" available

abbrev t3 : LocationOut
t3 = table "t3" occupied

abbrev floor : List LocationOut
floor = t1 ∷ t2 ∷ t3 ∷ []

abbrev active_orders : List OrderOut
active_orders =
    record { id = "o1"; session_id = "s1"; location_id = some "t1"; status = OrderStatus.served }
    ∷ record { id = "o2"; session_id = "s3"; location_id = some "t3"; status = OrderStatus.ready }
    ∷ record { id = "o3"; session_id = "s4"; location_id = none; status = OrderStatus.ready }
    ∷ []

abbrev moving : MoveProps
moving = move_props (some t1) floor active_orders

abbrev session_at : String → StoredSession
session_at l = record { location_id = some l; is_closed = false }

abbrev stored_sessions : String → Option StoredSession
stored_sessions s =
    if s == "s1" then some (session_at "t1") else if s == "s3" then some (session_at "t3") else none

-- A bill was generated for the third table.
abbrev billed : String → Bool
billed s = s == "s3"

abbrev stored_locations : String → Option LocationOut
stored_locations l =
    if l == "t1"
    then some t1
    else if l == "t2"
    then some t2
    else if l == "t3"
    then some t3
    else none

floor-IsInStep : IsInStep stored_sessions billed stored_locations floor active_orders
floor-IsInStep = (seen, same)
  where
    seen :
        (l s : String)
        → Held l s active_orders
        → (st : StoredSession) × (stored_sessions s ≡ some st)
          × (st.location_id ≡ some l)
          × (st.is_closed ≡ false)
    seen l s (inl (e, k)) = (session_at "t1", rw (sym k) refl, e, refl)
    seen l s (inr (inl (e, k))) = (session_at "t3", rw (sym k) refl, e, refl)
    seen l s (inr (inr (inl (e, k)))) = absurd (ground arith)
    seen l s (inr (inr (inr h))) = absurd h

    same : (t : LocationOut) → Among t floor → stored_locations t.id ≡ some t
    same t (inl e) = rw (e) refl
    same t (inr (inl e)) = rw (e) refl
    same t (inr (inr (inl e))) = rw (e) refl
    same t (inr (inr (inr h))) = absurd h

-- A transfer to the free table, and then a merge into the order of the third one.
abbrev transferred : MoveDialog
transferred = handle_confirm moving (set_target t2 (reset []))

abbrev merged : MoveDialog
merged = handle_confirm moving (set_target t3 (set_mode merge (move_failed "taken" transferred)))

merged_calls : merged.calls ≡ transfer_session "s1" "t2" ∷ merge_sessions "s1" "s3" ∷ []
unfolding handle_confirm set_target set_mode move_failed move_props
merged_calls = refl

moved : Reached moving merged
unfolding options move_props handle_confirm set_mode
moved =
    confirms (
      targets t3 (inl refl)
        (chooses merge (fails "taken" (confirms (targets t2 (inl refl) opens)))))

-- The merge is refused for the bill.
merged_accepts :
    accepts_move stored_sessions billed stored_locations (merge_sessions "s1" "s3") ≡ false
unfolding accepts_move
merged_accepts = refl

Reached-accepts_move_example :
    All
      (λ c.
        accepts_move stored_sessions billed stored_locations c
        ≡ passes_rest stored_sessions billed stored_locations c)
      merged.calls
Reached-accepts_move_example =
    Reached-accepts_move stored_sessions billed stored_locations t1 floor active_orders
      floor-IsInStep moved
