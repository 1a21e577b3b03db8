-- ===== src/Charges.antt =====
-- Charge bands: frontend/src/features/settings/components/ChargeBandsSection.tsx and
-- frontend/src/features/settings/components/ChargeBandDialog.tsx. `Array.prototype.sort` is an insertion
-- sort by the sign of the comparison, which keeps the order of what compares as equal, as the language
-- asks for. `Number(text)` and `String(number)` are arguments.
pub mod Sorting
pub mod Ladders
pub mod Editing
mod Tests
use why_not_grace_pos.Prelude.{
  String, Bool, true, false, not, ◌&&◌, ◌==◌, Option, none, some, List, [], ◌∷◌, map, keep, Number,
  is_truthy, or_none, trim, text_append, if◌then◌else◌,
}
use why_not_grace_pos.MenuEditor.{or_text}
use why_not_grace_pos.MenuEditor.Drafts.{or_0}
use why_not_grace_pos.Grouping.{group_onto}

pub data ChargeBasis : Type 0 where
  flat percent : ChargeBasis

pub record ChargeBandCreate {ℓ} (N : Type ℓ) : Type ℓ where
  pub name : String
  pub applies_to_context : Option String
  pub min_amount : N
  pub max_amount : Option N
  pub basis : ChargeBasis
  pub value : N
  pub is_taxable : Bool
  pub is_active : Bool
  pub display_order : N

-- The band's own fields, and its id.
pub record ChargeBandOut {ℓ} (N : Type ℓ) : Type ℓ where
  pub id : String
  pub band : ChargeBandCreate N

pub record ChargeLadderGap {ℓ} (N : Type ℓ) : Type ℓ where
  pub name : String
  pub applies_to_context : Option String
  pub from_amount : N
  pub to_amount : Option N

module _ {ℓ} {N : Type ℓ} where
  abbrev pub context_of : ChargeBandOut N → String
  context_of b = or_text b.band.applies_to_context ""

  unfoldable pub ladder_key : ChargeBandOut N → String
  ladder_key b = text_append b.band.name (text_append "\0" (context_of b))

  -- The gaps that are shown under a ladder, of whose bands this is the first.
  unfoldable pub gaps_under : ChargeBandOut N → List (ChargeLadderGap N) → List (ChargeLadderGap N)
  gaps_under first gaps =
      keep
        (λ g.
          (ChargeLadderGap.name g == first.band.name)
          && (or_text (ChargeLadderGap.applies_to_context g) "" == context_of first))
        gaps

module _ {ℓ} {N : Type ℓ} ⦃n : Number N⦄ where
  -- `a.min_amount - b.min_amount`, and whether it lets `a` stand first.
  unfoldable pub in_order : ChargeBandOut N → ChargeBandOut N → Bool
  in_order a b = n.le (n.sub a.band.min_amount b.band.min_amount) (n.of_ℕ 0)

  unfoldable pub place : ChargeBandOut N → List (ChargeBandOut N) → List (ChargeBandOut N)
  unfolding in_order
  place a [] = a ∷ []
  place a (b ∷ bs) =
      let rest : List (ChargeBandOut N) = place a bs in
      if in_order a b then a ∷ b ∷ bs else b ∷ rest

  unfoldable pub sort_by_min : List (ChargeBandOut N) → List (ChargeBandOut N)
  unfolding place
  sort_by_min [] = []
  sort_by_min (b ∷ bs) = place b (sort_by_min bs)

  unfoldable pub ladders : List (ChargeBandOut N) → List (String × List (ChargeBandOut N))
  unfolding ladder_key sort_by_min group_onto
  ladders bands = map (λ e. (e.0, sort_by_min e.1)) (group_onto ladder_key [] bands)

-- The fields of the dialog, as they are typed.
pub record BandForm : Type 0 where
  pub name : String
  pub context : String
  pub min_amount : String
  pub max_amount : String
  pub basis : ChargeBasis
  pub value : String
  pub is_taxable : Bool
  pub is_active : Bool

pub data BandCall {ℓ} (N : Type ℓ) : Type ℓ where
  creates : ChargeBandCreate N → BandCall N
  updates : String → ChargeBandCreate N → BandCall N

module _ {ℓ} {N : Type ℓ} ⦃n : Number N⦄ (text_of : N → String) where
  -- An upper bound that is missing is an empty text: and above.
  abbrev pub bound_text : Option N → String
  bound_text none = ""
  bound_text (some x) = text_of x

  -- The dialog when it is mounted, which it is whenever it opens.
  unfoldable pub band_form : Option (ChargeBandOut N) → Option String → BandForm
  band_form none default_name = record {
    name = or_text default_name "";
    context = "";
    min_amount = text_of (n.of_ℕ 0);
    max_amount = "";
    basis = flat;
    value = text_of (n.of_ℕ 0);
    is_taxable = true;
    is_active = true;
  }
  band_form (some b) default_name = record {
    name = b.band.name;
    context = context_of b;
    min_amount = text_of b.band.min_amount;
    max_amount = bound_text b.band.max_amount;
    basis = b.band.basis;
    value = text_of b.band.value;
    is_taxable = b.band.is_taxable;
    is_active = b.band.is_active;
  }

module _ {ℓ} {N : Type ℓ} ⦃n : Number N⦄ (number_of : String → N) where
  abbrev pub bound_of : String → Option N
  bound_of text = if is_truthy (trim text) then some (number_of text) else none

  unfoldable pub band_payload : Option (ChargeBandOut N) → BandForm → ChargeBandCreate N
  band_payload band f = record {
    name = trim f.name;
    applies_to_context = or_none f.context;
    min_amount = or_0 (number_of f.min_amount);
    max_amount = bound_of f.max_amount;
    basis = f.basis;
    value = or_0 (number_of f.value);
    is_taxable = f.is_taxable;
    is_active = f.is_active;
    display_order = order_of band;
  }
    where
      order_of : Option (ChargeBandOut N) → N
      order_of none = n.of_ℕ 0
      order_of (some b) = b.band.display_order

  unfoldable pub handle_save : Option (ChargeBandOut N) → BandForm → BandCall N
  unfolding band_payload
  handle_save none f = creates (band_payload none f)
  handle_save (some b) f = updates b.id (band_payload (some b) f)
