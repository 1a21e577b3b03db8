-- ===== src/Queries/BillingHooks.antt =====
-- The hooks of frontend/src/features/billing/hooks.ts that read or change what the backend keeps.
use why_not_grace_pos.Prelude.{String, true, Option, none, some, [], ◌∷◌, is_set}
use why_not_grace_pos.Api.Bills
use why_not_grace_pos.Queries.Options.{
  name, maybe, invalidate, write, QueryOptions, MutationOptions,
}

abbrev pub use_bill : Option String → QueryOptions
use_bill bill_id = record {
  query_key = name "billing" ∷ maybe bill_id ∷ [];
  query_fn = Bills.fetch bill_id;
  enabled = is_set bill_id;
  stale_time = 5_000;
  refetch_interval = none;
}

abbrev pub use_unbilled_orders : QueryOptions
use_unbilled_orders = record {
  query_key = name "billing" ∷ name "unbilled-orders" ∷ [];
  query_fn = Bills.unbilled_orders;
  enabled = true;
  stale_time = 10_000;
  refetch_interval = some 20_000;
}

abbrev pub use_generate_bill : String → MutationOptions
use_generate_bill payload = record {
  mutation_fn = Bills.generate payload;
  on_success = λ answer.
      write (name "billing" ∷ name answer ∷ [])
      ∷ invalidate (name "orders" ∷ [])
      ∷ invalidate (name "billing" ∷ name "unbilled-orders" ∷ [])
      ∷ [];
}

abbrev pub use_apply_discount : Option String → String → MutationOptions
use_apply_discount bill_id payload = record {
  mutation_fn = Bills.apply_discount bill_id payload;
  on_success = λ answer. write (name "billing" ∷ name answer ∷ []) ∷ [];
}

abbrev pub use_void_bill_item : Option String → Option String → Option String → MutationOptions
use_void_bill_item bill_id item_id reason = record {
  mutation_fn = Bills.void_item bill_id item_id reason;
  on_success = λ answer. write (name "billing" ∷ name answer ∷ []) ∷ [];
}

abbrev pub use_comp_bill_item : Option String → Option String → Option String → MutationOptions
use_comp_bill_item bill_id item_id reason = record {
  mutation_fn = Bills.comp_item bill_id item_id reason;
  on_success = λ answer. write (name "billing" ∷ name answer ∷ []) ∷ [];
}

abbrev pub use_uncomp_bill_item : Option String → Option String → MutationOptions
use_uncomp_bill_item bill_id item_id = record {
  mutation_fn = Bills.uncomp_item bill_id item_id;
  on_success = λ answer. write (name "billing" ∷ name answer ∷ []) ∷ [];
}

abbrev pub use_void_bill : Option String → Option String → MutationOptions
use_void_bill bill_id reason = record {
  mutation_fn = Bills.void_bill bill_id reason;
  on_success = λ answer.
      write (name "billing" ∷ name answer ∷ [])
      ∷ invalidate (name "orders" ∷ [])
      ∷ invalidate (name "tables" ∷ [])
      ∷ invalidate (name "billing" ∷ name "unbilled-orders" ∷ [])
      ∷ [];
}

abbrev pub use_mark_bill_no_charge : Option String → Option String → MutationOptions
use_mark_bill_no_charge bill_id reason = record {
  mutation_fn = Bills.mark_no_charge bill_id reason;
  on_success = λ answer.
      write (name "billing" ∷ name answer ∷ [])
      ∷ invalidate (name "orders" ∷ [])
      ∷ invalidate (name "tables" ∷ [])
      ∷ invalidate (name "billing" ∷ name "unbilled-orders" ∷ [])
      ∷ [];
}
