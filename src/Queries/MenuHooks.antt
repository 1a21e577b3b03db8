-- ===== src/Queries/MenuHooks.antt =====
-- The hooks of frontend/src/features/menu/hooks.ts that read or change what the backend keeps.
use why_not_grace_pos.Prelude.{String, true, Option, none, List, [], ◌∷◌, is_set}
use why_not_grace_pos.Api.Categories
use why_not_grace_pos.Api.Items
use why_not_grace_pos.Queries.Options.{
  name, maybe, Effect, invalidate, QueryOptions, MutationOptions,
}

abbrev pub use_categories : QueryOptions
use_categories = record {
  query_key = name "categories" ∷ [];
  query_fn = Categories.list;
  enabled = true;
  stale_time = 60_000;
  refetch_interval = none;
}

abbrev pub use_menu_items : QueryOptions
use_menu_items = record {
  query_key = name "menu-items" ∷ [];
  query_fn = Items.list [];
  enabled = true;
  stale_time = 30_000;
  refetch_interval = none;
}

abbrev pub invalidate_menu : List Effect
invalidate_menu = invalidate (name "categories" ∷ []) ∷ invalidate (name "menu-items" ∷ []) ∷ []

abbrev pub use_create_category : String → MutationOptions
use_create_category payload = record {
  mutation_fn = Categories.create payload;
  on_success = λ answer. invalidate_menu;
}

abbrev pub use_update_category : Option String → String → MutationOptions
use_update_category category_id payload = record {
  mutation_fn = Categories.update category_id payload;
  on_success = λ answer. invalidate_menu;
}

abbrev pub use_delete_category : Option String → MutationOptions
use_delete_category category_id = record {
  mutation_fn = Categories.remove category_id;
  on_success = λ answer. invalidate_menu;
}

abbrev pub use_create_menu_item : String → MutationOptions
use_create_menu_item payload = record {
  mutation_fn = Items.create payload;
  on_success = λ answer. invalidate_menu;
}

abbrev pub use_update_menu_item : Option String → String → MutationOptions
use_update_menu_item item_id payload = record {
  mutation_fn = Items.update item_id payload;
  on_success = λ answer. invalidate_menu;
}

abbrev pub use_delete_menu_item : Option String → MutationOptions
use_delete_menu_item item_id = record {
  mutation_fn = Items.remove item_id;
  on_success = λ answer. invalidate_menu;
}

abbrev pub use_add_variant : Option String → String → MutationOptions
use_add_variant item_id payload = record {
  mutation_fn = Items.add_variant item_id payload;
  on_success = λ answer. invalidate_menu;
}

abbrev pub use_add_option_group : Option String → String → MutationOptions
use_add_option_group item_id payload = record {
  mutation_fn = Items.add_option_group item_id payload;
  on_success = λ answer. invalidate_menu;
}

abbrev pub use_add_option : Option String → String → MutationOptions
use_add_option group_id payload = record {
  mutation_fn = Items.add_option group_id payload;
  on_success = λ answer. invalidate_menu;
}

abbrev pub use_update_variant : Option String → String → MutationOptions
use_update_variant variant_id payload = record {
  mutation_fn = Items.update_variant variant_id payload;
  on_success = λ answer. invalidate_menu;
}

abbrev pub use_delete_variant : Option String → MutationOptions
use_delete_variant variant_id = record {
  mutation_fn = Items.delete_variant variant_id;
  on_success = λ answer. invalidate_menu;
}

abbrev pub use_update_option_group : Option String → String → MutationOptions
use_update_option_group group_id payload = record {
  mutation_fn = Items.update_option_group group_id payload;
  on_success = λ answer. invalidate_menu;
}

abbrev pub use_delete_option_group : Option String → MutationOptions
use_delete_option_group group_id = record {
  mutation_fn = Items.delete_option_group group_id;
  on_success = λ answer. invalidate_menu;
}

abbrev pub use_update_option : Option String → String → MutationOptions
use_update_option option_id payload = record {
  mutation_fn = Items.update_option option_id payload;
  on_success = λ answer. invalidate_menu;
}

abbrev pub use_delete_option : Option String → MutationOptions
use_delete_option option_id = record {
  mutation_fn = Items.delete_option option_id;
  on_success = λ answer. invalidate_menu;
}

abbrev pub use_item_translations : Option String → QueryOptions
use_item_translations item_id = record {
  query_key = name "menu-item-translations" ∷ maybe item_id ∷ [];
  query_fn = Items.list_translations item_id;
  enabled = is_set item_id;
  stale_time = 30_000;
  refetch_interval = none;
}

abbrev pub use_set_item_translation : Option String → Option String → String → MutationOptions
use_set_item_translation item_id language payload = record {
  mutation_fn = Items.set_translation item_id language payload;
  on_success = λ answer. invalidate (name "menu-item-translations" ∷ maybe item_id ∷ []) ∷ [];
}

abbrev pub use_category_translations : Option String → QueryOptions
use_category_translations category_id = record {
  query_key = name "menu-category-translations" ∷ maybe category_id ∷ [];
  query_fn = Categories.list_translations category_id;
  enabled = is_set category_id;
  stale_time = 30_000;
  refetch_interval = none;
}

abbrev pub use_set_category_translation : Option String → Option String → String → MutationOptions
use_set_category_translation category_id language payload = record {
  mutation_fn = Categories.set_translation category_id language payload;
  on_success =
      λ answer. invalidate (name "menu-category-translations" ∷ maybe category_id ∷ []) ∷ [];
}
