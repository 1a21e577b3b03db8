-- ===== src/Charges/Tests.antt =====
-- The theorems about charge bands at a concrete ladder.
use why_not_grace_pos.Prelude.{
  ℕ, true, ◌≡◌, ◌&&◌, refl, none, some, List, [], ◌∷◌, All, tally, arith, whole_Number,
}
use why_not_grace_pos.Grouping.{members}
use why_not_grace_pos.Charges.{ChargeBandOut, flat, percent, ladder_key, ladders}
use why_not_grace_pos.Charges.Sorting.{IsAscending}
use why_not_grace_pos.Charges.Ladders.{IsFilled, same_ladder, ladders-tally}

-- A delivery charge that is free from 500 on.
abbrev free : ChargeBandOut ℕ
free = record {
  id = "b1";
  band = record {
    name = "Delivery";
    applies_to_context = some "DELIVERY";
    min_amount = 500;
    max_amount = none;
    basis = flat;
    value = 0;
    is_taxable = true;
    is_active = true;
    display_order = 0;
  };
}

abbrev below_500 : ChargeBandOut ℕ
below_500 = record {
  id = "b2";
  band = record {
    name = "Delivery";
    applies_to_context = some "DELIVERY";
    min_amount = 0;
    max_amount = some 500;
    basis = flat;
    value = 40;
    is_taxable = true;
    is_active = true;
    display_order = 0;
  };
}

abbrev service : ChargeBandOut ℕ
service = record {
  id = "b3";
  band = record {
    name = "Service";
    applies_to_context = none;
    min_amount = 0;
    max_amount = none;
    basis = percent;
    value = 5;
    is_taxable = true;
    is_active = true;
    display_order = 1;
  };
}

abbrev bands : List (ChargeBandOut ℕ)
bands = free ∷ service ∷ below_500 ∷ []

ladders-tally_example :
    All (λ e. IsFilled e.1) (ladders bands)
    × IsAscending (members (ladder_key free) (ladders bands))
    × (tally (λ c. true) (members (ladder_key free) (ladders bands))
        ≡ tally (λ c. same_ladder free c && true) bands)
ladders-tally_example =
    ladders-tally (λ x y h. ground arith) (λ x y z h k. ground arith) free bands (λ c. true) refl
      (refl, (refl, (refl, _)))
