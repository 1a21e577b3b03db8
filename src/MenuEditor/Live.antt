-- ===== src/MenuEditor/Live.antt =====
-- The variants, groups and options of a dish that is there, which go to the backend one by one. A
-- call's refusal shows as that of a save.
use why_not_grace_pos.Prelude.{
  String, Bool, true, false, Option, none, some, [], ◌∷◌, ◌++◌, ◌≡◌, ◌⊎◌, inl, inr, refl, Number,
  is_truthy, trim, if◌then◌else◌, Bool-cases,
}
use why_not_grace_pos.Menu.{MenuItemOut}
use why_not_grace_pos.MenuEditor.{
  DraftVariant, NewParts, ItemEditor, PartCreate, variant_create, or_text,
}
use why_not_grace_pos.MenuEditor.Drafts.{or_0, option_name, with_entry, handle_add_variant_draft}

pub record GroupPayload : Type 0 where
  pub name : String
  pub is_required : Bool
  pub allow_multiple : Bool

module _ {ℓ} {N : Type ℓ} ⦃n : Number N⦄ (number_of : String → N) where
  -- The call that adds the variant, to the dish.
  unfoldable pub handle_add_variant_live :
      Option (MenuItemOut N) → NewParts → Option (String × PartCreate N)
  handle_add_variant_live none parts = none
  handle_add_variant_live (some i) parts =
      if is_truthy (trim parts.variant_name)
      then some (
        i.id,
        record {
          name = trim parts.variant_name;
          price_delta = or_0 (number_of parts.variant_delta);
        },
      )
      else none

  unfoldable pub handle_add_option_live : String → NewParts → Option (String × PartCreate N)
  handle_add_option_live group parts =
      if is_truthy (option_name parts group)
      then some (
        group,
        record {
          name = option_name parts group;
          price_delta = or_0 (number_of (or_text (parts.option_delta_by_group group) "0"));
        },
      )
      else none

module _ {ℓ} {N : Type ℓ} where
  unfoldable pub handle_add_group_live :
      Option (MenuItemOut N) → NewParts → Option (String × GroupPayload)
  handle_add_group_live none parts = none
  handle_add_group_live (some i) parts =
      if is_truthy (trim parts.group_name)
      then some (
        i.id,
        record {
          name = trim parts.group_name;
          is_required = parts.group_required;
          allow_multiple = parts.group_multiple;
        },
      )
      else none

-- What the answers do to the fields.
unfoldable pub variant_added : NewParts → NewParts
variant_added parts = record parts { variant_name = ""; variant_delta = "0" }

unfoldable pub group_added : NewParts → NewParts
group_added parts = record parts { group_name = ""; group_required = false; group_multiple = false }

unfoldable pub option_added : String → NewParts → NewParts
option_added group parts = record parts {
  option_name_by_group = with_entry group "" parts.option_name_by_group;
  option_delta_by_group = with_entry group "0" parts.option_delta_by_group;
}

-- A part is deleted once the question is answered with yes.
unfoldable pub handle_delete_part : Bool → String → Option String
handle_delete_part confirmed id = if confirmed then some id else none

module _ {ℓ} {N : Type ℓ} ⦃n : Number N⦄ (number_of : String → N) where
  -- A variant is added to a dish that is there as it is to a new one: where the name is not blank, the
  -- call carries the fields of the draft, whatever key that is given, and the draft's press and the
  -- call's success leave the same fields; where it is blank, neither press does a thing.
  pub add_variant_live-draft :
      (i : MenuItemOut N) (key : String) (e : ItemEditor N)
      → let draft = handle_add_variant_draft number_of key e in
        ((v : DraftVariant N) × (handle_add_variant_live number_of (some i) e.new
            ≡ some (i.id, variant_create v))
          × (draft.draft_variants ≡ e.draft_variants ++ (v ∷ []))
          × (draft.new ≡ variant_added e.new)
          × (is_truthy (trim e.new.variant_name) ≡ true))
        ⊎ ((is_truthy (trim e.new.variant_name) ≡ false)
            × (handle_add_variant_live number_of (some i) e.new ≡ none)
            × (draft ≡ e))
  unfolding handle_add_variant_draft handle_add_variant_live variant_added
  add_variant_live-draft i key e = elim (Bool-cases (is_truthy (trim e.new.variant_name))) [
    | inl h ↦ rw (h) (
        inl (
          record {
            key = key;
            name = trim e.new.variant_name;
            price_delta = or_0 (number_of e.new.variant_delta);
          },
          refl,
          refl,
          refl,
          refl,
        ))
    | inr h ↦ rw (h) (inr (refl, refl, refl))
  ]
