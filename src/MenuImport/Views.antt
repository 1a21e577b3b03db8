-- ===== src/MenuImport/Views.antt =====
-- What an edit does to the places of a draft.
use why_not_grace_pos.Prelude.{
  nat_eq, ltb, ℕ, suc, String, Bool, true, false, not, ◌&&◌, ◌≡◌, refl, ap, ◌∙◌, inl, inr, Option,
  none, some, List, [], ◌∷◌, ◌++◌, length, Number, Bool-cases, if◌then◌else◌, arith,
}
use why_not_grace_pos.MenuImport.Places.{
  at, changed, at-map_first, at-drop_first, at_end, at-append_one,
}
use why_not_grace_pos.MenuImport.{
  MenuImportItemDraft, MenuImportCategoryDraft, map_at, drop_at, with_items, new_item, DraftEdit,
  renames_category, deletes_category, adds_category, updates_item, deletes_item, adds_item, patched,
  edited, update_category_name, delete_category, add_category, update_item, delete_item, add_item,
}

module _ {ℓ} {N : Type ℓ} where
  -- The item and the name at a place; a place past the end has none.
  abbrev pub item_of : ℕ → Option (MenuImportCategoryDraft N) → Option (MenuImportItemDraft N)
  item_of i none = none
  item_of i (some c) = at i c.items

  abbrev pub name_of : Option (MenuImportCategoryDraft N) → Option String
  name_of none = none
  name_of (some c) = some c.name

  abbrev pub item_at : ℕ → ℕ → List (MenuImportCategoryDraft N) → Option (MenuImportItemDraft N)
  item_at c i d = item_of i (at c d)

  abbrev pub name_at : ℕ → List (MenuImportCategoryDraft N) → Option String
  name_at c d = name_of (at c d)

  -- Whether an index is the one after a category's last item.
  abbrev pub is_end : ℕ → Option (MenuImportCategoryDraft N) → Bool
  is_end i none = false
  is_end i (some c) = nat_eq i (length c.items)

  item_of-named :
      (i : ℕ) (name : String) (o : Option (MenuImportCategoryDraft N))
      → item_of i (changed (λ c. record c { name = name }) o) ≡ item_of i o
  item_of-named i name none = refl
  item_of-named i name (some c) = refl

  item_of-updated :
      (b : Bool) (f : MenuImportItemDraft N → MenuImportItemDraft N) (j i : ℕ)
      (o : Option (MenuImportCategoryDraft N))
      → item_of i (if b then changed (with_items (map_at 0 j f)) o else o)
        ≡ (if b && nat_eq i j then changed f (item_of i o) else item_of i o)
  item_of-updated true f j i none = ground arith
  item_of-updated true f j i (some c) = at-map_first j i f c.items
  item_of-updated false f j i o = refl

  item_of-deleted :
      (b : Bool) (j i : ℕ) (o : Option (MenuImportCategoryDraft N))
      → item_of i (if b then changed (with_items (drop_at 0 j)) o else o)
        ≡ item_of (if b && not (ltb i j) then suc i else i) o
  item_of-deleted true j i none = refl
  item_of-deleted true j i (some c) = ground (arith, at-drop_first j i c.items)
  item_of-deleted false j i o = refl

  item_of-added :
      (b : Bool) (x : MenuImportItemDraft N) (i : ℕ) (o : Option (MenuImportCategoryDraft N))
      → item_of i (if b then changed (with_items (λ xs. xs ++ (x ∷ []))) o else o)
        ≡ (if b && is_end i o then some x else item_of i o)
  item_of-added true x i none = refl
  item_of-added true x i (some c) = at-append_one c.items x i
  item_of-added false x i o = refl

  item_of-empty :
      (i c : ℕ) (s : String) (d : List (MenuImportCategoryDraft N))
      → item_of i (if nat_eq c (length d) then some (record { name = s; items = [] }) else at c d)
        ≡ item_of i (at c d)
  item_of-empty i c s d = elim (Bool-cases (nat_eq c (length d))) [
    | inl e ↦ rw (e, at_end d c e) refl
    | inr e ↦ rw (e) refl
  ]

  name_of-with_items :
      (f : List (MenuImportItemDraft N) → List (MenuImportItemDraft N))
      (o : Option (MenuImportCategoryDraft N))
      → name_of (changed (with_items f) o) ≡ name_of o
  name_of-with_items f none = refl
  name_of-with_items f (some c) = refl

  name_of-named :
      (name : String) (o : Option (MenuImportCategoryDraft N))
      → name_of (changed (λ c. record c { name = name }) o) ≡ changed (λ s. name) (name_of o)
  name_of-named name none = refl
  name_of-named name (some c) = refl

  name_of-branch :
      (b : Bool) (f : MenuImportCategoryDraft N → MenuImportCategoryDraft N)
      (o : Option (MenuImportCategoryDraft N))
      → name_of (changed f o) ≡ name_of o
      → name_of (if b then changed f o else o) ≡ name_of o
  name_of-branch true f o h = h
  name_of-branch false f o h = refl

module _ {ℓ} {N : Type ℓ} ⦃n : Number N⦄ (number_of : String → N) where
  -- What an edit leaves at an item's place, read off the places before it.
  abbrev pub item_after :
      DraftEdit N → List (MenuImportCategoryDraft N) → ℕ → ℕ → Option (MenuImportItemDraft N)
  item_after (renames_category k s) d c i = item_at c i d
  item_after (deletes_category k) d c i = item_at (if ltb c k then c else suc c) i d
  item_after adds_category d c i = item_at c i d
  item_after (updates_item k j p) d c i =
      if nat_eq c k && nat_eq i j
      then changed (patched number_of p) (item_at c i d)
      else item_at c i d
  item_after (deletes_item k j) d c i =
      item_at c (if nat_eq c k && not (ltb i j) then suc i else i) d
  item_after (adds_item k) d c i =
      if nat_eq c k && is_end i (at c d) then some (new_item (n.of_ℕ 0)) else item_at c i d

  abbrev pub name_after : DraftEdit N → List (MenuImportCategoryDraft N) → ℕ → Option String
  name_after (renames_category k s) d c =
      if nat_eq c k then changed (λ t. s) (name_at c d) else name_at c d
  name_after (deletes_category k) d c = name_at (if ltb c k then c else suc c) d
  name_after adds_category d c = if nat_eq c (length d) then some "New category" else name_at c d
  name_after _ d c = name_at c d

  edited-name_at :
      (e : DraftEdit N) (d : List (MenuImportCategoryDraft N)) (c : ℕ)
      → name_at c (edited number_of e d) ≡ name_after e d c
  unfolding edited update_category_name delete_category add_category update_item delete_item
      add_item
  edited-name_at (renames_category k s) d c =
      rw (at-map_first k c (λ x. record x { name = s }) d)
        (ground (arith, name_of-named s (at c d)))
  edited-name_at (deletes_category k) d c = ap name_of (at-drop_first k c d)
  edited-name_at adds_category d c =
      rw (at-append_one d (record { name = "New category"; items = [] }) c) (ground arith)
  edited-name_at (updates_item k j p) d c =
      ap name_of (at-map_first k c (with_items (map_at 0 j (patched number_of p))) d)
      ∙ name_of-branch (nat_eq c k) (with_items (map_at 0 j (patched number_of p))) (at c d)
          (name_of-with_items _ (at c d))
  edited-name_at (deletes_item k j) d c =
      ap name_of (at-map_first k c (with_items (drop_at 0 j)) d)
      ∙ name_of-branch (nat_eq c k) (with_items (drop_at 0 j)) (at c d)
          (name_of-with_items _ (at c d))
  edited-name_at (adds_item k) d c =
      ap name_of (at-map_first k c (with_items (λ xs. xs ++ (new_item (n.of_ℕ 0) ∷ []))) d)
      ∙ name_of-branch (nat_eq c k) (with_items (λ xs. xs ++ (new_item (n.of_ℕ 0) ∷ []))) (at c d)
          (name_of-with_items _ (at c d))

  edited-item_at :
      (e : DraftEdit N) (d : List (MenuImportCategoryDraft N)) (c i : ℕ)
      → item_at c i (edited number_of e d) ≡ item_after e d c i
  unfolding edited update_category_name delete_category add_category update_item delete_item
      add_item
  edited-item_at (renames_category k s) d c i =
      rw (at-map_first k c (λ x. record x { name = s }) d)
        (ground (arith, item_of-named i s (at c d)))
  edited-item_at (deletes_category k) d c i = ap (item_of i) (at-drop_first k c d)
  edited-item_at adds_category d c i =
      rw (at-append_one d (record { name = "New category"; items = [] }) c)
        (item_of-empty i c "New category" d)
  edited-item_at (updates_item k j p) d c i =
      rw (at-map_first k c (with_items (map_at 0 j (patched number_of p))) d)
        (item_of-updated (nat_eq c k) (patched number_of p) j i (at c d))
  edited-item_at (deletes_item k j) d c i =
      rw (at-map_first k c (with_items (drop_at 0 j)) d) (item_of-deleted (nat_eq c k) j i (at c d))
  edited-item_at (adds_item k) d c i =
      rw (at-map_first k c (with_items (λ xs. xs ++ (new_item (n.of_ℕ 0) ∷ []))) d)
        (item_of-added (nat_eq c k) (new_item (n.of_ℕ 0)) i (at c d))

  -- Each edit of a draft changes what it names and leaves every other place as it was: a new name goes
  -- to its category only; a category or an item that is deleted lets those after it move up by one; a
  -- new category comes after the last one, without items; an item's fields change in that item only;
  -- and a new item, free until it is priced, comes after the last one of its category. An index that
  -- is out of range changes nothing.
  pub edited-item_after :
      (e : DraftEdit N) (d : List (MenuImportCategoryDraft N))
      → ((c i : ℕ) → item_at c i (edited number_of e d) ≡ item_after e d c i)
        × ((c : ℕ) → name_at c (edited number_of e d) ≡ name_after e d c)
  edited-item_after e d = (edited-item_at e d, edited-name_at e d)
