-- ===== src/Queries/SettingHooks.antt =====
-- The hooks of frontend/src/features/settings/hooks.ts that read or change what the backend keeps.
use why_not_grace_pos.Prelude.{String, Bool, true, Option, none, [], ◌∷◌}
use why_not_grace_pos.Api.Charges
use why_not_grace_pos.Api.Features
use why_not_grace_pos.Api.Settings
use why_not_grace_pos.Api.Toggles
use why_not_grace_pos.Queries.Options.{
  name, maybe, maybe_number, is_amount, invalidate, QueryOptions, MutationOptions,
}

abbrev pub use_feature_flags : QueryOptions
use_feature_flags = record {
  query_key = name "feature-flags" ∷ [];
  query_fn = Features.list;
  enabled = true;
  stale_time = 60_000;
  refetch_interval = none;
}

abbrev pub use_business_settings : QueryOptions
use_business_settings = record {
  query_key = name "business-settings" ∷ [];
  query_fn = Settings.fetch;
  enabled = true;
  stale_time = 60_000;
  refetch_interval = none;
}

abbrev pub use_update_business_settings : String → MutationOptions
use_update_business_settings payload = record {
  mutation_fn = Settings.update payload;
  on_success = λ answer. invalidate (name "business-settings" ∷ []) ∷ [];
}

abbrev pub use_charge_bands : QueryOptions
use_charge_bands = record {
  query_key = name "charge-bands" ∷ [];
  query_fn = Charges.list_bands;
  enabled = true;
  stale_time = 30_000;
  refetch_interval = none;
}

abbrev pub use_create_charge_band : String → MutationOptions
use_create_charge_band payload = record {
  mutation_fn = Charges.create_band payload;
  on_success = λ answer. invalidate (name "charge-bands" ∷ []) ∷ [];
}

abbrev pub use_update_charge_band : Option String → String → MutationOptions
use_update_charge_band band_id payload = record {
  mutation_fn = Charges.update_band band_id payload;
  on_success = λ answer. invalidate (name "charge-bands" ∷ []) ∷ [];
}

abbrev pub use_delete_charge_band : Option String → MutationOptions
use_delete_charge_band band_id = record {
  mutation_fn = Charges.delete_band band_id;
  on_success = λ answer. invalidate (name "charge-bands" ∷ []) ∷ [];
}

abbrev pub use_charge_preview : Option String → Option String → QueryOptions
use_charge_preview amount context = record {
  query_key = name "charge-preview" ∷ maybe_number amount ∷ maybe context ∷ [];
  query_fn = Charges.preview amount context;
  enabled = is_amount amount;
  stale_time = 0;
  refetch_interval = none;
}

abbrev pub use_toggles : QueryOptions
use_toggles = record {
  query_key = name "toggles" ∷ [];
  query_fn = Toggles.list;
  enabled = true;
  stale_time = 30_000;
  refetch_interval = none;
}

abbrev pub use_update_toggle : Option String → Bool → MutationOptions
use_update_toggle key enabled = record {
  mutation_fn = Toggles.update key enabled;
  on_success = λ answer. invalidate (name "toggles" ∷ []) ∷ [];
}

abbrev pub use_reset_toggle : Option String → MutationOptions
use_reset_toggle key = record {
  mutation_fn = Toggles.reset key;
  on_success = λ answer. invalidate (name "toggles" ∷ []) ∷ [];
}

abbrev pub use_invoice_series : QueryOptions
use_invoice_series = record {
  query_key = name "invoice-series" ∷ [];
  query_fn = Toggles.invoice_series;
  enabled = true;
  stale_time = 30_000;
  refetch_interval = none;
}
