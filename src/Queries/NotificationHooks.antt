-- ===== src/Queries/NotificationHooks.antt =====
-- The hooks of frontend/src/features/notifications/hooks.ts that read or change what the backend keeps.
use why_not_grace_pos.Prelude.{String, true, Option, some, [], ◌∷◌}
use why_not_grace_pos.Api.Notifications
use why_not_grace_pos.Queries.Options.{name, invalidate, QueryOptions, MutationOptions}

abbrev pub use_notifications : QueryOptions
use_notifications = record {
  query_key = name "notifications" ∷ [];
  query_fn = Notifications.list;
  enabled = true;
  stale_time = 15_000;
  refetch_interval = some 30_000;
}

abbrev pub use_mark_notification_read : Option String → MutationOptions
use_mark_notification_read notification_id = record {
  mutation_fn = Notifications.mark_read notification_id;
  on_success = λ answer. invalidate (name "notifications" ∷ []) ∷ [];
}

abbrev pub use_mark_all_notifications_read : MutationOptions
use_mark_all_notifications_read = record {
  mutation_fn = Notifications.mark_all_read;
  on_success = λ answer. invalidate (name "notifications" ∷ []) ∷ [];
}
