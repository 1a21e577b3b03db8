-- ===== src/Queries/ReportHooks.antt =====
-- The hooks of frontend/src/features/reports/hooks.ts that read or change what the backend keeps.
use why_not_grace_pos.Prelude.{true, none, [], ◌∷◌}
use why_not_grace_pos.Api.Calls.{Params}
use why_not_grace_pos.Api.Reports
use why_not_grace_pos.Queries.Options.{Part, name, QueryOptions}

abbrev pub use_sales_report : Params → QueryOptions
use_sales_report params = record {
  query_key = name "reports" ∷ name "sales" ∷ Part.params params ∷ [];
  query_fn = Reports.sales params;
  enabled = true;
  stale_time = 30_000;
  refetch_interval = none;
}

abbrev pub use_orders_report : Params → QueryOptions
use_orders_report params = record {
  query_key = name "reports" ∷ name "orders" ∷ Part.params params ∷ [];
  query_fn = Reports.orders params;
  enabled = true;
  stale_time = 30_000;
  refetch_interval = none;
}

abbrev pub use_payments_report : Params → QueryOptions
use_payments_report params = record {
  query_key = name "reports" ∷ name "payments" ∷ Part.params params ∷ [];
  query_fn = Reports.payments params;
  enabled = true;
  stale_time = 30_000;
  refetch_interval = none;
}

abbrev pub use_top_items_report : Params → QueryOptions
use_top_items_report params = record {
  query_key = name "reports" ∷ name "top-items" ∷ Part.params params ∷ [];
  query_fn = Reports.top_items params;
  enabled = true;
  stale_time = 30_000;
  refetch_interval = none;
}

abbrev pub use_categories_report : Params → QueryOptions
use_categories_report params = record {
  query_key = name "reports" ∷ name "categories" ∷ Part.params params ∷ [];
  query_fn = Reports.categories params;
  enabled = true;
  stale_time = 30_000;
  refetch_interval = none;
}

abbrev pub use_channels_report : Params → QueryOptions
use_channels_report params = record {
  query_key = name "reports" ∷ name "channels" ∷ Part.params params ∷ [];
  query_fn = Reports.channels params;
  enabled = true;
  stale_time = 30_000;
  refetch_interval = none;
}
