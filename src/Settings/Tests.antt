-- ===== src/Settings/Tests.antt =====
-- The theorem about the settings at a concrete business.
use why_not_grace_pos.Prelude.{
  ℕ, true, ◌≡◌, refl, none, some, List, [], ◌∷◌, All, arith, trim, whole_Number,
}
use why_not_grace_pos.Prelude.Tallies.{tally_text, tally_of, tally_of-tally_text}
use why_not_grace_pos.Settings.{
  BusinessNames, BusinessSettingsOut, new_page, render_page, SettingsEvent, renders, saves_page,
  saved_page, settings_run,
}
use why_not_grace_pos.Settings.Saving.{values_of, IsTidy, settings_run-sent}

abbrev cafe : BusinessNames
cafe = record { name = "Cafe"; business_type = "CAFE" }

abbrev rates : ℕ → BusinessSettingsOut ℕ
rates tax = record {
  default_language = "en";
  timezone = "Asia/Kolkata";
  default_tax_percent = tax;
  default_service_charge_percent = 0;
  currency = "INR";
  gstin = none;
  tax_label = "GST";
  tax_split_intra_state = true;
  fssai_number = some "123";
  receipt_header_lines = none;
  receipt_footer_text = none;
}

cafe-IsTidy : IsTidy cafe (rates 5)
unfolding trim
cafe-IsTidy = record {
  name = refl;
  timezone = refl;
  currency = refl;
  gstin = refl;
  fssai = refl;
  label = refl;
  labelled = refl;
  tax = refl;
  charge = refl;
}

-- The tax changes elsewhere, and both saves send the old one.
abbrev visit : List (SettingsEvent ℕ)
visit = saves_page ∷ saved_page ∷ renders (some cafe) (some (rates 3)) ∷ saves_page ∷ []

settings_run-sent_example :
    All
      (λ r. r ≡ (cafe, values_of (rates 5)))
      (settings_run tally_of tally_text
        (render_page tally_text (some cafe) (some (rates 5)) new_page)
        visit).sent
settings_run-sent_example =
    settings_run-sent tally_of tally_text tally_of-tally_text (λ x h. ground arith) cafe (rates 5)
      cafe-IsTidy visit _
