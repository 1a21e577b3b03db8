-- ===== src/MenuEditor/Drafts.antt =====
-- The variants, groups and options of a new dish, which are kept in the dialog until it is saved.
use why_not_grace_pos.Prelude.{
  String, Bool-cases, true, false, inl, inr, ◌≡◌, refl, sym, Option, some, [], ◌∷◌, ◌++◌, map, ◌==◌,
  Number, is_truthy, trim, if◌then◌else◌,
}
use why_not_grace_pos.MenuEditor.{DraftOption, DraftOptionGroup, NewParts, ItemEditor, or_text}

-- A map with one entry set.
abbrev pub with_entry : String → String → (String → Option String) → String → Option String
with_entry key value m k = if k == key then some value else m k

-- `Number(text) || 0`: what is no number is 0.
module _ {ℓ} {N : Type ℓ} ⦃n : Number N⦄ where
  abbrev pub or_0 : N → N
  or_0 x = if n.same x (n.of_ℕ 0) then n.of_ℕ 0 else if n.same x x then x else n.of_ℕ 0

module _ {ℓ} {N : Type ℓ} ⦃n : Number N⦄ where
  -- An amount that `|| 0` leaves alone: the only zero is 0, and an amount is the same as itself.
  pub or_0-same :
      ((x : N) → n.same x (n.of_ℕ 0) ≡ true → x ≡ n.of_ℕ 0)
      → (x : N) → n.same x x ≡ true
      → or_0 x ≡ x
  or_0-same zero x h = elim (Bool-cases (n.same x (n.of_ℕ 0))) [
    | inl e ↦ rw (e) (sym (zero x e))
    | inr e ↦ rw (e, h) refl
  ]

module _ {ℓ} {N : Type ℓ} where
  abbrev pub with_option : String → DraftOption N → DraftOptionGroup N → DraftOptionGroup N
  with_option group o g = if g.key == group then record g { options = g.options ++ (o ∷ []) } else g

-- The field that a group's option is typed into.
abbrev pub option_name : NewParts → String → String
option_name parts group = trim (or_text (parts.option_name_by_group group) "")

module _ {ℓ} {N : Type ℓ} ⦃n : Number N⦄ (number_of : String → N) where
  unfoldable pub handle_add_variant_draft : String → ItemEditor N → ItemEditor N
  handle_add_variant_draft key e =
      if is_truthy (trim e.new.variant_name)
      then record e {
        draft_variants =
            e.draft_variants
            ++ (record {
              key = key;
              name = trim e.new.variant_name;
              price_delta = or_0 (number_of e.new.variant_delta);
            }
                ∷ []);
        new = record e.new { variant_name = ""; variant_delta = "0" };
      }
      else e

  unfoldable pub handle_add_group_draft : String → ItemEditor N → ItemEditor N
  handle_add_group_draft key e =
      if is_truthy (trim e.new.group_name)
      then record e {
        draft_groups =
            e.draft_groups
            ++ (record {
              key = key;
              name = trim e.new.group_name;
              is_required = e.new.group_required;
              allow_multiple = e.new.group_multiple;
              options = [];
            }
                ∷ []);
        new = record e.new { group_name = ""; group_required = false; group_multiple = false };
      }
      else e

  -- The option that the fields of a group make.
  abbrev pub new_option : String → String → NewParts → DraftOption N
  new_option group key parts = record {
    key = key;
    name = option_name parts group;
    price_delta = or_0 (number_of (or_text (parts.option_delta_by_group group) "0"));
  }

  unfoldable pub handle_add_option_draft : String → String → ItemEditor N → ItemEditor N
  handle_add_option_draft group key e =
      if is_truthy (option_name e.new group)
      then record e {
        draft_groups = map (with_option group (new_option group key e.new)) e.draft_groups;
        new = record e.new {
          option_name_by_group = with_entry group "" e.new.option_name_by_group;
          option_delta_by_group = with_entry group "0" e.new.option_delta_by_group;
        };
      }
      else e
