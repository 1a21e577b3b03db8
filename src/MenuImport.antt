-- ===== src/MenuImport.antt =====
-- A menu read off photographs: frontend/src/features/platform/components/MenuImportSection.tsx. The
-- photographs are of a type of their own, and what is read off them is an event.
pub mod Places
pub mod Views
pub mod Section
mod Tests
use why_not_grace_pos.Prelude.{
  nat_eq, ℕ, suc, ◌+◌, String, Bool, true, false, not, Option, none, some, List, [], ◌∷◌, ◌++◌, map,
  length, Number, or_none, if◌then◌else◌,
}
use why_not_grace_pos.MenuEditor.Drafts.{or_0}

pub record MenuImportItemDraft {ℓ} (N : Type ℓ) : Type ℓ where
  pub name : String
  pub description : Option String
  pub price : N
  pub is_veg : Bool

pub record MenuImportCategoryDraft {ℓ} (N : Type ℓ) : Type ℓ where
  pub name : String
  pub items : List (MenuImportItemDraft N)

module _ {ℓ} {A : Type ℓ} where
  -- `xs.map((x, i) => i === at ? f(x) : x)`, from an index on.
  unfoldable pub map_at : ℕ → ℕ → (A → A) → List A → List A
  map_at i at f [] = []
  map_at i at f (x ∷ xs) = (if nat_eq i at then f x else x) ∷ map_at (suc i) at f xs

  -- `xs.filter((_, i) => i !== at)`, from an index on.
  unfoldable pub drop_at : ℕ → ℕ → List A → List A
  drop_at i at [] = []
  drop_at i at (x ∷ xs) =
      let rest : List A = drop_at (suc i) at xs in if not (nat_eq i at) then x ∷ rest else rest

module _ {ℓ} {N : Type ℓ} where
  unfoldable pub update_category_name :
      ℕ → String → List (MenuImportCategoryDraft N) → List (MenuImportCategoryDraft N)
  unfolding map_at
  update_category_name cat_index name draft =
      map_at 0 cat_index (λ c. record c { name = name }) draft

  unfoldable pub delete_category :
      ℕ → List (MenuImportCategoryDraft N) → List (MenuImportCategoryDraft N)
  unfolding drop_at
  delete_category cat_index draft = drop_at 0 cat_index draft

  unfoldable pub add_category :
      Option (List (MenuImportCategoryDraft N)) → List (MenuImportCategoryDraft N)
  add_category none = record { name = "New category"; items = [] } ∷ []
  add_category (some draft) = draft ++ (record { name = "New category"; items = [] } ∷ [])

  -- The items of one category are changed.
  abbrev pub with_items :
      (List (MenuImportItemDraft N) → List (MenuImportItemDraft N))
      → MenuImportCategoryDraft N
      → MenuImportCategoryDraft N
  with_items f c = record c { items = f c.items }

  unfoldable pub update_item :
      ℕ
      → ℕ
      → (MenuImportItemDraft N → MenuImportItemDraft N)
      → List (MenuImportCategoryDraft N)
      → List (MenuImportCategoryDraft N)
  unfolding map_at
  update_item cat_index item_index patch draft =
      map_at 0 cat_index (with_items (map_at 0 item_index patch)) draft

  unfoldable pub delete_item :
      ℕ → ℕ → List (MenuImportCategoryDraft N) → List (MenuImportCategoryDraft N)
  unfolding map_at drop_at
  delete_item cat_index item_index draft =
      map_at 0 cat_index (with_items (drop_at 0 item_index)) draft

  -- A new item costs nothing until it is given a price.
  abbrev pub new_item : N → MenuImportItemDraft N
  new_item free = record { name = "New item"; description = none; price = free; is_veg = true }

  unfoldable pub add_item :
      N → ℕ → List (MenuImportCategoryDraft N) → List (MenuImportCategoryDraft N)
  unfolding map_at
  add_item free cat_index draft =
      map_at 0 cat_index (with_items (λ items. items ++ (new_item free ∷ []))) draft

-- The fields of an item's row: what typing into each of them changes.
pub data ItemPatch {ℓ} (N : Type ℓ) : Type ℓ where
  sets_veg : Bool → ItemPatch N
  sets_name : String → ItemPatch N
  sets_description : String → ItemPatch N
  sets_price : String → ItemPatch N

-- What the buttons and fields of a draft do to it.
pub data DraftEdit {ℓ} (N : Type ℓ) : Type ℓ where
  renames_category : ℕ → String → DraftEdit N
  deletes_category : ℕ → DraftEdit N
  adds_category : DraftEdit N
  updates_item : ℕ → ℕ → ItemPatch N → DraftEdit N
  deletes_item : ℕ → ℕ → DraftEdit N
  adds_item : ℕ → DraftEdit N

module _ {ℓ} {N : Type ℓ} ⦃n : Number N⦄ (number_of : String → N) where
  unfoldable pub patched : ItemPatch N → MenuImportItemDraft N → MenuImportItemDraft N
  patched (sets_veg b) i = record i { is_veg = b }
  patched (sets_name s) i = record i { name = s }
  patched (sets_description s) i = record i { description = or_none s }
  patched (sets_price s) i = record i { price = or_0 (number_of s) }

  unfoldable pub edited :
      DraftEdit N → List (MenuImportCategoryDraft N) → List (MenuImportCategoryDraft N)
  unfolding update_category_name delete_category add_category update_item delete_item add_item
      patched
  edited (renames_category c s) d = update_category_name c s d
  edited (deletes_category c) d = delete_category c d
  edited adds_category d = add_category (some d)
  edited (updates_item c i p) d = update_item c i (patched p) d
  edited (deletes_item c i) d = delete_item c i d
  edited (adds_item c) d = add_item (n.of_ℕ 0) c d
