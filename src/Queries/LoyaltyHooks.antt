-- ===== src/Queries/LoyaltyHooks.antt =====
-- The hooks of frontend/src/features/loyalty/hooks.ts that read or change what the backend keeps.
use why_not_grace_pos.Prelude.{String, true, Option, none, [], ◌∷◌, is_set}
use why_not_grace_pos.Api.Loyalty
use why_not_grace_pos.Queries.Options.{name, maybe, invalidate, QueryOptions, MutationOptions}

abbrev pub use_loyalty_account : Option String → QueryOptions
use_loyalty_account customer_id = record {
  query_key = name "loyalty" ∷ name "account" ∷ maybe customer_id ∷ [];
  query_fn = Loyalty.fetch_account customer_id;
  enabled = is_set customer_id;
  stale_time = 30_000;
  refetch_interval = none;
}

abbrev pub use_loyalty_rewards : Option String → QueryOptions
use_loyalty_rewards customer_id = record {
  query_key = name "loyalty" ∷ name "rewards" ∷ maybe customer_id ∷ [];
  query_fn = Loyalty.list_rewards customer_id;
  enabled = is_set customer_id;
  stale_time = 30_000;
  refetch_interval = none;
}

abbrev pub use_loyalty_rules : QueryOptions
use_loyalty_rules = record {
  query_key = name "loyalty" ∷ name "rules" ∷ [];
  query_fn = Loyalty.list_rules;
  enabled = true;
  stale_time = 30_000;
  refetch_interval = none;
}

abbrev pub use_create_loyalty_rule : String → MutationOptions
use_create_loyalty_rule payload = record {
  mutation_fn = Loyalty.create_rule payload;
  on_success = λ answer. invalidate (name "loyalty" ∷ name "rules" ∷ []) ∷ [];
}

abbrev pub use_update_loyalty_rule : Option String → String → MutationOptions
use_update_loyalty_rule rule_id payload = record {
  mutation_fn = Loyalty.update_rule rule_id payload;
  on_success = λ answer. invalidate (name "loyalty" ∷ name "rules" ∷ []) ∷ [];
}

abbrev pub use_redeem_reward : Option String → String → MutationOptions
use_redeem_reward reward_id payload = record {
  mutation_fn = Loyalty.redeem_reward reward_id payload;
  on_success = λ answer.
      invalidate (name "loyalty" ∷ name "rewards" ∷ [])
      ∷ invalidate (name "loyalty" ∷ name "account" ∷ [])
      ∷ [];
}
