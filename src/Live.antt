-- ===== src/Live.antt =====
-- One run of the effect of frontend/src/hooks/useLiveUpdates.ts: the socket that tells the app which
-- queries to fetch again, and its reconnection. A socket that the cleanup closes delivers no more
-- frames, and its close event comes later.
pub mod Sockets
mod Tests
use why_not_grace_pos.Prelude.{
  ℕ, suc, ◌-◌, ltb, String, Bool, true, false, Option, none, some, List, [], ◌∷◌, ◌++◌, ◌==◌,
  is_set, if◌then◌else◌,
}

-- What a frame holds: text that is not JSON, a value that is no object, or an object with its `type`
-- and its `keys`, where they are a text and a list.
pub data Frame : Type 0 where
  unreadable plain_value : Frame
  object : Option String → Option (List String) → Frame

abbrev pub is_kind : Option String → Bool
is_kind none = false
is_kind (some kind) = kind == "invalidate"

-- `isInvalidateMessage`, with the keys of a message that is one.
unfoldable pub invalidate_keys : Frame → List String
invalidate_keys unreadable = []
invalidate_keys plain_value = []
invalidate_keys (object kind none) = []
invalidate_keys (object kind (some keys)) = if is_kind kind then keys else []

-- `connected` counts the sockets that were opened so far, `sockets` those that are open, `closing`
-- those that the cleanup closed and whose close event is still to come, `timers` the reconnect timers
-- that are set, and `invalidated` holds the query keys that were invalidated, oldest first.
pub record Live : Type 0 where
  pub cancelled : Bool
  pub connected : ℕ
  pub sockets : ℕ
  pub closing : ℕ
  pub timers : ℕ
  pub invalidated : List String

unfoldable pub connect : Live → Live
connect s =
    if s.cancelled then s else record s { connected = suc s.connected; sockets = suc s.sockets }

unfoldable pub on_message : Frame → Live → Live
unfolding invalidate_keys
on_message frame s = record s { invalidated = s.invalidated ++ invalidate_keys frame }

-- The handler runs for every socket that closes, also for one that the cleanup closed.
unfoldable pub on_close : Live → Live
on_close s = if s.cancelled then s else record s { timers = suc s.timers }

unfoldable pub on_timer : Live → Live
unfolding connect
on_timer s = connect s

-- The cleanup clears the last timer and closes the last socket, whose close event is then under way.
unfoldable pub cleanup : Live → Live
cleanup s = record s {
  cancelled = true;
  timers = s.timers - 1;
  sockets = s.sockets - 1;
  closing = if ltb 0 s.sockets then suc s.closing else s.closing;
}

-- A frame comes over an open socket, an open socket is closed from outside, a socket that the cleanup
-- closed delivers its close event, a timer fires, and the effect is cleaned up.
pub data LiveEvent : Type 0 where
  receives : Frame → LiveEvent
  closes closed fires cleans : LiveEvent

unfoldable pub live_step : Live → LiveEvent → Live
unfolding on_message on_close on_timer cleanup
live_step s (receives frame) = if ltb 0 s.sockets then on_message frame s else s
live_step s closes = if ltb 0 s.sockets then on_close (record s { sockets = s.sockets - 1 }) else s
live_step s closed = if ltb 0 s.closing then on_close (record s { closing = s.closing - 1 }) else s
live_step s fires = if ltb 0 s.timers then on_timer (record s { timers = s.timers - 1 }) else s
live_step s cleans = cleanup s

unfoldable pub live_run : Live → List LiveEvent → Live
live_run s [] = s
live_run s (e ∷ es) = live_run (live_step s e) es

-- The effect under an access token; with none it does nothing.
unfoldable pub start_live : Option String → Option Live
unfolding connect
start_live token =
    if is_set token
    then some (
        connect (record {
          cancelled = false;
          connected = 0;
          sockets = 0;
          closing = 0;
          timers = 0;
          invalidated = [];
        }))
    else none
