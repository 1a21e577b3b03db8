-- ===== src/MenuImport/Tests.antt =====
-- The theorems about the import at a concrete menu card.
use why_not_grace_pos.Prelude.{
  ℕ, ◌+◌, ◌≤◌, String, true, ◌≡◌, refl, none, some, List, [], ◌∷◌, tally, every, whole_Number,
}
use why_not_grace_pos.Prelude.Tallies.{tally_of}
use why_not_grace_pos.MenuImport.{
  MenuImportCategoryDraft, updates_item, deletes_item, sets_price, edited,
}
use why_not_grace_pos.MenuImport.Views.{item_at, item_after, name_at, name_after, edited-item_after}
use why_not_grace_pos.MenuImport.Section.{
  ImportEvent, chooses, presses_extract, extracted, edits, presses_publish, published,
  publish_failed, new_section, import_run, has_photo, is_publish, is_answer, import_run-calls,
}

abbrev card : List (MenuImportCategoryDraft ℕ)
card =
    record {
      name = "Snacks";
      items =
          record { name = "Samosa"; description = none; price = 20; is_veg = true }
          ∷ record { name = "Kachori"; description = none; price = 25; is_veg = true }
          ∷ [];
    }
    ∷ record { name = "Drinks"; items = [] }
    ∷ []

kachori_moves_up :
    item_at 0 0 (edited tally_of (deletes_item 0 0) card)
    ≡ some (record { name = "Kachori"; description = none; price = 25; is_veg = true })
unfolding edited
kachori_moves_up = refl

edited-item_after_example :
    ((c i : ℕ)
      → item_at c i (edited tally_of (updates_item 0 1 (sets_price "|||")) card)
        ≡ item_after tally_of (updates_item 0 1 (sets_price "|||")) card c i)
    × ((c : ℕ)
        → name_at c (edited tally_of (updates_item 0 1 (sets_price "|||")) card)
          ≡ name_after tally_of (updates_item 0 1 (sets_price "|||")) card c)
edited-item_after_example = edited-item_after tally_of (updates_item 0 1 (sets_price "|||")) card

abbrev day : List (ImportEvent String ℕ)
day =
    presses_extract
    ∷ chooses ("card.jpg" ∷ [])
    ∷ presses_extract
    ∷ extracted card
    ∷ presses_publish
    ∷ presses_publish
    ∷ publish_failed "offline"
    ∷ edits (deletes_item 0 0)
    ∷ presses_publish
    ∷ published
    ∷ []

two_publications : tally is_publish (import_run tally_of new_section day).calls ≡ 2
unfolding import_run
two_publications = refl

import_run-calls_example :
    (every has_photo (import_run tally_of new_section day).calls ≡ true)
    × (tally is_publish (import_run tally_of new_section day).calls ≤ tally is_answer day + 1)
import_run-calls_example = import_run-calls tally_of day
