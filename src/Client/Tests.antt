-- ===== src/Client/Tests.antt =====
-- The theorems about the client at concrete histories: two requests that meet a 401 together.
use why_not_grace_pos.Prelude.{
  ◌+◌, ◌≤◌, ◌≡◌, refl, false, true, none, some, List, [], ◌∷◌, String, tally, text_includes,
  text_append,
}
use why_not_grace_pos.Auth.{AuthStore, Tokens}
use why_not_grace_pos.Request.{Request, HttpError, http, business_endpoints, is_final}
use why_not_grace_pos.Client.{
  Client, Leader, Event, posting, calls, fails, gives, throws, fresh_client, step, run,
}
use why_not_grace_pos.Client.Settling.{held, answers, has_key, run-settles}
use why_not_grace_pos.Client.Refresh.{IsOrderly, run_fresh-IsOrderly}
use why_not_grace_pos.Client.Replay.{replays, rejections, step_gives, step_throws}
use why_not_grace_pos.Client.Sends.{run-sends_le}

abbrev signed_in : AuthStore String
signed_in = record {
  access_token = some "old";
  refresh_token = some "r1";
  user = some "cashier";
  hydrated = true;
}

abbrev unauthorized : HttpError
unauthorized = record { status = some 401; has_config = true; tag = 0 }

abbrev renewed : Tokens
renewed = record { access_token = "new"; refresh_token = "r2" }

abbrev refused_together : List (Event String)
refused_together =
    calls 1 (some "/orders")
    ∷ calls 2 (some "/kot")
    ∷ fails 1 unauthorized
    ∷ fails 2 unauthorized
    ∷ []

abbrev order_request : Request
order_request = record {
  key = 1;
  url = some "/orders";
  authorization = some "Bearer old";
  retried = true;
}

abbrev kot_request : Request
kot_request = record {
  key = 2;
  url = some "/kot";
  authorization = some "Bearer old";
  retried = true;
}

abbrev order_leader : Leader
order_leader = record { original = order_request; call = posting "r1" }

abbrev waiting_client : Client String
waiting_client = record (fresh_client signed_in) {
  is_refreshing = true;
  queue = kot_request ∷ [];
  leaders = order_leader ∷ [];
}

reaches_waiting :
    let c = run business_endpoints (fresh_client signed_in) refused_together in
    (c.queue ≡ kot_request ∷ []) × (c.leaders ≡ order_leader ∷ [])
unfolding run step is_final text_includes text_append
reaches_waiting = (refl, refl)

run-settles_example :
    let c = run business_endpoints (fresh_client signed_in) refused_together in
    held 2 c + tally (answers 2) c.settled ≡ 1
run-settles_example = run-settles business_endpoints 2 signed_in refused_together

run_fresh-IsOrderly_example :
    IsOrderly (run business_endpoints (fresh_client signed_in) refused_together)
run_fresh-IsOrderly_example = run_fresh-IsOrderly business_endpoints signed_in refused_together

run-sends_le_example :
    tally (has_key 1) (run business_endpoints (fresh_client signed_in) refused_together).sent ≤ 2
run-sends_le_example = run-sends_le business_endpoints 1 signed_in refused_together

step_gives_example :
    let d = step business_endpoints waiting_client (gives renewed) in
    (d.flying ≡ replays "new" (kot_request ∷ order_request ∷ []))
    × (d.settled ≡ [])
    × (d.queue ≡ [])
    × (d.is_refreshing ≡ false)
    × (d.leaders ≡ [])
    × (d.store ≡ record {
      access_token = some "new";
      refresh_token = some "r2";
      user = some "cashier";
      hydrated = true;
    })
unfolding step
step_gives_example =
    step_gives business_endpoints waiting_client order_leader "r1" renewed refl refl refl

step_throws_example :
    let d = step business_endpoints waiting_client (throws unauthorized) in
    (d.settled ≡ rejections (http unauthorized) (kot_request ∷ order_request ∷ []))
    × (d.flying ≡ [])
    × (d.queue ≡ [])
    × (d.is_refreshing ≡ false)
    × (d.leaders ≡ [])
    × (d.store ≡ record { access_token = none; refresh_token = none; user = none; hydrated = true })
unfolding step
step_throws_example = step_throws business_endpoints waiting_client order_leader unauthorized refl
