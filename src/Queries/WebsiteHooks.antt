-- ===== src/Queries/WebsiteHooks.antt =====
-- The hooks of frontend/src/features/website/hooks.ts that read or change what the backend keeps.
use why_not_grace_pos.Prelude.{String, Option, none, [], ◌∷◌, is_set}
use why_not_grace_pos.Api.Websites
use why_not_grace_pos.Queries.Options.{name, maybe, QueryOptions}

abbrev pub use_public_website : Option String → QueryOptions
use_public_website slug = record {
  query_key = name "website" ∷ name "public" ∷ maybe slug ∷ [];
  query_fn = Websites.fetch_site slug;
  enabled = is_set slug;
  stale_time = 60_000;
  refetch_interval = none;
}

abbrev pub use_public_website_menu : Option String → String → QueryOptions
use_public_website_menu slug lang = record {
  query_key = name "website" ∷ name "public" ∷ maybe slug ∷ name "menu" ∷ name lang ∷ [];
  query_fn = Websites.fetch_menu slug lang;
  enabled = is_set slug;
  stale_time = 60_000;
  refetch_interval = none;
}
