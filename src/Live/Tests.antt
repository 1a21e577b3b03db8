-- ===== src/Live/Tests.antt =====
-- The theorems about live updates at a concrete history.
use why_not_grace_pos.Prelude.{false, some, List, [], ◌∷◌, ◌++◌, ◌≡◌, refl}
use why_not_grace_pos.Live.{
  Live, LiveEvent, object, receives, closes, closed, fires, cleans, live_run, start_live,
}
use why_not_grace_pos.Live.Sockets.{IsAlive, live_run_started}

abbrev connected : Live
connected = record {
  cancelled = false;
  connected = 1;
  sockets = 1;
  closing = 0;
  timers = 0;
  invalidated = [];
}

abbrev evening : List LiveEvent
evening = receives (object (some "invalidate") (some ("orders" ∷ []))) ∷ closes ∷ fires ∷ []

live_run_started_example :
    IsAlive (live_run connected evening)
    × ((live_run connected (evening ++ cleans ∷ closed ∷ fires ∷ [])).connected
        ≡ (live_run connected evening).connected)
    × ((live_run connected (evening ++ cleans ∷ closed ∷ fires ∷ [])).invalidated
        ≡ (live_run connected evening).invalidated)
unfolding start_live
live_run_started_example =
    live_run_started (some "token") connected evening (closed ∷ fires ∷ []) refl
