-- ===== src/Queries/GuestHooks.antt =====
-- The hooks of frontend/src/features/qr/hooks.ts that read or change what the backend keeps.
use why_not_grace_pos.Prelude.{
  ℕ, String, Bool, true, false, ◌&&◌, Option, none, some, [], ◌∷◌, is_set, if◌then◌else◌,
}
use why_not_grace_pos.Progress.{OrderStatus, served, delivered, completed, cancelled}
use why_not_grace_pos.Api.Guests
use why_not_grace_pos.Queries.Options.{
  name, maybe, text_of, QueryOptions, MutationOptions, default_stale_time,
}

abbrev pub use_qr_menu : Option String → String → QueryOptions
use_qr_menu token lang = record {
  query_key = name "qr" ∷ name "menu" ∷ maybe token ∷ name lang ∷ [];
  query_fn = Guests.fetch_menu (text_of token) lang;
  enabled = is_set token;
  stale_time = 30_000;
  refetch_interval = none;
}

abbrev pub use_place_qr_order : String → String → MutationOptions
use_place_qr_order token payload = record {
  mutation_fn = Guests.place_order token payload;
  on_success = λ answer. [];
}

-- `TERMINAL_STATUSES`.
unfoldable pub is_terminal : OrderStatus → Bool
is_terminal served = true
is_terminal delivered = true
is_terminal completed = true
is_terminal cancelled = true
is_terminal s = false

-- How often the status is asked for, by the order's status as it was last fetched.
unfoldable pub poll_interval : Option OrderStatus → Option ℕ
unfolding is_terminal
poll_interval none = some 6_000
poll_interval (some s) = if is_terminal s then none else some 6_000

abbrev pub use_qr_order_status : Option String → Option String → Option OrderStatus → QueryOptions
use_qr_order_status token order_id status = record {
  query_key = name "qr" ∷ name "order-status" ∷ maybe token ∷ maybe order_id ∷ [];
  query_fn = Guests.fetch_order_status (text_of token) order_id;
  enabled = is_set token && is_set order_id;
  stale_time = default_stale_time;
  refetch_interval = poll_interval status;
}
