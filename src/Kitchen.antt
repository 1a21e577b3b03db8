-- ===== src/Kitchen.antt =====
-- The kitchen board: the tickets of frontend/src/features/kitchen/components/KotCard.tsx and what
-- frontend/src/features/kitchen/KitchenPage.tsx asks the backend for, and the printing of a ticket
-- for every station in frontend/src/lib/printReceipt.ts. Whether one ticket's request and print
-- succeed is an argument, a Boolean for each station.
pub mod Board
pub mod Printing
mod Tests
use why_not_grace_pos.Prelude.{
  ℕ, String, Bool, true, false, not, ◌&&◌, Option, none, some, List, [], ◌∷◌, or_none, leb, length,
  if◌then◌else◌,
}

pub data KotStatus : Type 0 where
  new accepted preparing ready served cancelled : KotStatus

-- `NEXT_STATUS`.
unfoldable pub next_status : KotStatus → Option KotStatus
next_status new = some accepted
next_status accepted = some preparing
next_status preparing = some ready
next_status _ = none

-- `NEXT_LABEL_KEY`.
unfoldable pub next_label_key : KotStatus → Option String
next_label_key new = some "kitchen.accept"
next_label_key accepted = some "kitchen.startPreparing"
next_label_key preparing = some "kitchen.markReady"
next_label_key _ = none

pub data Tone : Type 0 where
  danger warning plain : Tone

-- `AGE_TONE`, by its border colour.
unfoldable pub age_tone : ℕ → Tone
age_tone minutes = if leb 15 minutes then danger else if leb 8 minutes then warning else plain

-- A button of a ticket, and the status that it asks the backend for.
pub data Click : Type 0 where
  advance cancel : Click

unfoldable pub asked : Click → KotStatus → Option KotStatus
unfolding next_status
asked advance status = next_status status
asked cancel status = some cancelled

-- The path and the station of one request for a ticket.
pub record TicketRequest : Type 0 where
  pub kot_id : String
  pub station : Option String

-- The requests that were made, and whether the call ended well, with its result.
pub record Printed : Type 0 where
  pub requests : List TicketRequest
  pub result : Option ℕ

abbrev pub is_nil {ℓ} : {A : Type ℓ} → List A → Bool
is_nil [] = true
is_nil (_ ∷ _) = false

-- `stations.length ? stations : [""]`.
unfoldable pub targets_of : List String → List String
targets_of stations = if is_nil stations then "" ∷ [] else stations

-- `station || undefined`.
unfoldable pub ticket : String → String → TicketRequest
ticket kot_id station = record { kot_id = kot_id; station = or_none station }

-- The loop over the stations: the first ticket that fails ends it. `works` says of each request in
-- turn whether it is answered and printed.
unfoldable pub print_each : (String → Bool) → String → ℕ → List String → Printed
unfolding ticket
print_each works kot_id total [] = record { requests = []; result = some total }
print_each works kot_id total (s ∷ rest) =
    let later = print_each works kot_id total rest in
    if works s
    then record { requests = ticket kot_id s ∷ later.requests; result = later.result }
    else record { requests = ticket kot_id s ∷ []; result = none }

-- `printKotForAllStations`, once the stations are known; none if that request fails.
unfoldable pub print_kot_for_all_stations :
    (String → Bool) → String → Option (List String) → Printed
unfolding print_each targets_of
print_kot_for_all_stations works kot_id none = record { requests = []; result = none }
print_kot_for_all_stations works kot_id (some stations) =
    print_each works kot_id (length (targets_of stations)) (targets_of stations)
