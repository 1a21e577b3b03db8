-- ===== src/Queries/RoomHooks.antt =====
-- The hooks of frontend/src/features/rooms/hooks.ts that read or change what the backend keeps.
use why_not_grace_pos.Prelude.{String, true, Option, some, List, [], ◌∷◌}
use why_not_grace_pos.Api.Locations
use why_not_grace_pos.Api.Rooms
use why_not_grace_pos.Queries.Options.{name, Effect, invalidate, QueryOptions, MutationOptions}

abbrev pub use_rooms : QueryOptions
use_rooms = record {
  query_key = name "rooms" ∷ [];
  query_fn = Rooms.list;
  enabled = true;
  stale_time = 15_000;
  refetch_interval = some 30_000;
}

abbrev pub invalidate_rooms : List Effect
invalidate_rooms = invalidate (name "rooms" ∷ []) ∷ []

abbrev pub use_create_room : String → MutationOptions
use_create_room payload = record {
  mutation_fn = Rooms.create payload;
  on_success = λ answer. invalidate_rooms;
}

abbrev pub use_update_room : Option String → String → MutationOptions
use_update_room room_id payload = record {
  mutation_fn = Rooms.update room_id payload;
  on_success = λ answer. invalidate_rooms;
}

abbrev pub use_delete_room : Option String → MutationOptions
use_delete_room room_id = record {
  mutation_fn = Locations.remove room_id;
  on_success = λ answer. invalidate_rooms;
}
