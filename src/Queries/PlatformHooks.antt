-- ===== src/Queries/PlatformHooks.antt =====
-- The hooks of frontend/src/features/platform/hooks.ts that read or change what the backend keeps.
use why_not_grace_pos.Prelude.{String, true, Option, none, List, [], ◌∷◌, is_set}
use why_not_grace_pos.Api.PlatformAccounts
use why_not_grace_pos.Api.PlatformBusinesses
use why_not_grace_pos.Api.PlatformPlans
use why_not_grace_pos.Queries.Options.{
  name, maybe, Effect, invalidate, write, QueryOptions, MutationOptions,
}

abbrev pub use_platform_login : String → MutationOptions
use_platform_login payload = record {
  mutation_fn = PlatformAccounts.log_in payload;
  on_success = λ answer. [];
}

-- Under a refresh token; without one the hook makes no call.
abbrev pub use_platform_logout : String → MutationOptions
use_platform_logout refresh_token = record {
  mutation_fn = PlatformAccounts.log_out refresh_token;
  on_success = λ answer. [];
}

abbrev pub use_platform_businesses : QueryOptions
use_platform_businesses = record {
  query_key = name "platform" ∷ name "businesses" ∷ [];
  query_fn = PlatformBusinesses.list;
  enabled = true;
  stale_time = 15_000;
  refetch_interval = none;
}

abbrev pub use_platform_business : Option String → QueryOptions
use_platform_business business_id = record {
  query_key = name "platform" ∷ name "businesses" ∷ maybe business_id ∷ [];
  query_fn = PlatformBusinesses.fetch business_id;
  enabled = is_set business_id;
  stale_time = 15_000;
  refetch_interval = none;
}

abbrev pub use_provision_business : String → MutationOptions
use_provision_business payload = record {
  mutation_fn = PlatformBusinesses.provision payload;
  on_success = λ answer. invalidate (name "platform" ∷ name "businesses" ∷ []) ∷ [];
}

abbrev pub use_set_business_active : Option String → String → MutationOptions
use_set_business_active business_id payload = record {
  mutation_fn = PlatformBusinesses.set_active business_id payload;
  on_success = λ answer.
      invalidate (name "platform" ∷ name "businesses" ∷ [])
      ∷ invalidate (name "platform" ∷ name "businesses" ∷ maybe business_id ∷ [])
      ∷ [];
}

abbrev pub use_platform_features : Option String → QueryOptions
use_platform_features business_id = record {
  query_key = name "platform" ∷ name "features" ∷ maybe business_id ∷ [];
  query_fn = PlatformBusinesses.list_features business_id;
  enabled = is_set business_id;
  stale_time = 15_000;
  refetch_interval = none;
}

abbrev pub use_set_platform_feature : Option String → Option String → String → MutationOptions
use_set_platform_feature business_id feature payload = record {
  mutation_fn = PlatformBusinesses.set_feature business_id feature payload;
  on_success =
      λ answer. invalidate (name "platform" ∷ name "features" ∷ maybe business_id ∷ []) ∷ [];
}

abbrev pub use_platform_toggles : Option String → QueryOptions
use_platform_toggles business_id = record {
  query_key = name "platform" ∷ name "toggles" ∷ maybe business_id ∷ [];
  query_fn = PlatformBusinesses.list_toggles business_id;
  enabled = is_set business_id;
  stale_time = 15_000;
  refetch_interval = none;
}

abbrev pub use_set_platform_toggle : Option String → Option String → String → MutationOptions
use_set_platform_toggle business_id key payload = record {
  mutation_fn = PlatformBusinesses.set_toggle business_id key payload;
  on_success =
      λ answer. invalidate (name "platform" ∷ name "toggles" ∷ maybe business_id ∷ []) ∷ [];
}

abbrev pub use_platform_subscription : Option String → QueryOptions
use_platform_subscription business_id = record {
  query_key = name "platform" ∷ name "subscription" ∷ maybe business_id ∷ [];
  query_fn = PlatformPlans.fetch business_id;
  enabled = is_set business_id;
  stale_time = 10_000;
  refetch_interval = none;
}

abbrev pub invalidate_platform_subscription : Option String → List Effect
invalidate_platform_subscription business_id =
    invalidate (name "platform" ∷ name "subscription" ∷ maybe business_id ∷ []) ∷ []

abbrev pub use_provision_subscription : Option String → String → MutationOptions
use_provision_subscription business_id payload = record {
  mutation_fn = PlatformPlans.provision business_id payload;
  on_success = λ answer. invalidate_platform_subscription business_id;
}

abbrev pub use_renew_subscription : Option String → String → MutationOptions
use_renew_subscription business_id payload = record {
  mutation_fn = PlatformPlans.renew business_id payload;
  on_success = λ answer. invalidate_platform_subscription business_id;
}

abbrev pub use_suspend_subscription : Option String → MutationOptions
use_suspend_subscription business_id = record {
  mutation_fn = PlatformPlans.suspend business_id;
  on_success = λ answer. invalidate_platform_subscription business_id;
}

abbrev pub use_cancel_subscription : Option String → MutationOptions
use_cancel_subscription business_id = record {
  mutation_fn = PlatformPlans.cancel business_id;
  on_success = λ answer. invalidate_platform_subscription business_id;
}

abbrev pub use_platform_website : Option String → QueryOptions
use_platform_website business_id = record {
  query_key = name "platform" ∷ name "website" ∷ maybe business_id ∷ [];
  query_fn = PlatformBusinesses.fetch_website business_id;
  enabled = is_set business_id;
  stale_time = 15_000;
  refetch_interval = none;
}

abbrev pub use_set_platform_website : Option String → String → MutationOptions
use_set_platform_website business_id payload = record {
  mutation_fn = PlatformBusinesses.set_website business_id payload;
  on_success = λ answer. write (name "platform" ∷ name "website" ∷ maybe business_id ∷ []) ∷ [];
}

abbrev pub use_extract_menu_from_photos : Option String → String → MutationOptions
use_extract_menu_from_photos business_id form = record {
  mutation_fn = PlatformBusinesses.extract_menu business_id form;
  on_success = λ answer. [];
}

abbrev pub use_publish_imported_menu : Option String → String → MutationOptions
use_publish_imported_menu business_id payload = record {
  mutation_fn = PlatformBusinesses.publish_menu business_id payload;
  on_success = λ answer. [];
}
