-- ===== src/Tables/Backend.antt =====
-- Which moves the service accepts: the guards of transfer_session and merge_sessions in
-- backend/app/services/order_service.py. The stored sessions and locations are functions from their
-- ids, and a function tells which sessions a bill was generated for.
use why_not_grace_pos.Prelude.{String, Bool, true, false, not, ◌&&◌, ◌==◌, Option, none, some}
use why_not_grace_pos.Tables.{LocationOut, is_available, MoveCall, transfer_session, merge_sessions}

-- Of `OrderSession`, what the guards read.
pub record StoredSession : Type 0 where
  pub location_id : Option String
  pub is_closed : Bool

-- The session has a location, and it is another one.
abbrev pub is_elsewhere : String → Option String → Bool
is_elsewhere id none = false
is_elsewhere id (some l) = not (l == id)

unfoldable pub accepts_transfer : Bool → Option StoredSession → String → Option LocationOut → Bool
unfolding is_available
accepts_transfer billed none id location = false
accepts_transfer billed (some s) id none = false
accepts_transfer billed (some s) id (some l) =
    not s.is_closed
    && is_elsewhere id s.location_id
    && l.is_active
    && is_available l.status
    && not billed

abbrev pub has_location : Option String → Bool
has_location none = false
has_location (some l) = true

-- A session of a merge: it is open, stands at a location and has no bill.
abbrev pub is_mergeable : Bool → Option StoredSession → Bool
is_mergeable billed none = false
is_mergeable billed (some s) = not s.is_closed && has_location s.location_id && not billed

module _ (sessions : String → Option StoredSession) (billed : String → Bool)
    (locations : String → Option LocationOut) where
  unfoldable pub accepts_move : MoveCall → Bool
  unfolding accepts_transfer
  accepts_move (transfer_session session id) =
      accepts_transfer (billed session) (sessions session) id (locations id)
  accepts_move (merge_sessions session into) =
      not (session == into)
      && is_mergeable (billed session) (sessions session)
      && is_mergeable (billed into) (sessions into)
