-- ===== src/Settings.antt =====
-- The settings of a business: frontend/src/features/settings/BusinessSettingsPage.tsx. `Number(text)`
-- and `String(number)` are arguments, and the type of a business is its text.
pub mod Saving
mod Tests
use why_not_grace_pos.Prelude.{
  String, Bool, true, false, not, ◌&&◌, Option, none, some, List, [], ◌∷◌, ◌++◌, Number, is_truthy,
  trim, if◌then◌else◌,
}
use why_not_grace_pos.MenuEditor.{or_text}
use why_not_grace_pos.MenuEditor.Drafts.{or_0}

-- Of `BusinessOut`, what the page reads, and `BusinessUpdateRequest`.
pub record BusinessNames : Type 0 where
  pub name : String
  pub business_type : String

-- Of `BusinessSettingsOut`, what the page reads; a missing text is none.
pub record BusinessSettingsOut {ℓ} (N : Type ℓ) : Type ℓ where
  pub default_language : String
  pub timezone : String
  pub default_tax_percent : N
  pub default_service_charge_percent : N
  pub currency : String
  pub gstin : Option String
  pub tax_label : String
  pub tax_split_intra_state : Bool
  pub fssai_number : Option String
  pub receipt_header_lines : Option String
  pub receipt_footer_text : Option String

-- Of `BusinessSettingsUpdateRequest`, what the page sends.
pub record BusinessSettingsUpdate {ℓ} (N : Type ℓ) : Type ℓ where
  pub default_language : String
  pub timezone : String
  pub default_tax_percent : N
  pub default_service_charge_percent : N
  pub currency : String
  pub gstin : String
  pub tax_label : String
  pub tax_split_intra_state : Bool
  pub fssai_number : String
  pub receipt_header_lines : String
  pub receipt_footer_text : String

pub record SettingsForm : Type 0 where
  pub name : String
  pub business_type : String
  pub default_language : String
  pub timezone : String
  pub tax : String
  pub service_charge : String
  pub currency : String
  pub gstin : String
  pub tax_label : String
  pub split_tax : Bool
  pub fssai : String
  pub receipt_header : String
  pub receipt_footer : String

-- The page, with the pairs of requests that it sent.
pub record SettingsPage {ℓ} (N : Type ℓ) : Type ℓ where
  pub form : SettingsForm
  pub hydrated : Bool
  pub pending : Bool
  pub error : Option String
  pub sent : List (BusinessNames × BusinessSettingsUpdate N)

module _ {ℓ} {N : Type ℓ} where
  abbrev pub new_page : SettingsPage N
  new_page = record {
    form = record {
      name = "";
      business_type = "RESTAURANT";
      default_language = "en";
      timezone = "";
      tax = "";
      service_charge = "";
      currency = "";
      gstin = "";
      tax_label = "GST";
      split_tax = true;
      fssai = "";
      receipt_header = "";
      receipt_footer = "";
    };
    hydrated = false;
    pending = false;
    error = none;
    sent = [];
  }

  module _ (text_of : N → String) where
    unfoldable pub hydrate : BusinessNames → BusinessSettingsOut N → SettingsForm
    hydrate b s = record {
      name = b.name;
      business_type = b.business_type;
      default_language = s.default_language;
      timezone = s.timezone;
      tax = text_of s.default_tax_percent;
      service_charge = text_of s.default_service_charge_percent;
      currency = s.currency;
      gstin = or_text s.gstin "";
      tax_label = s.tax_label;
      split_tax = s.tax_split_intra_state;
      fssai = or_text s.fssai_number "";
      receipt_header = or_text s.receipt_header_lines "";
      receipt_footer = or_text s.receipt_footer_text "";
    }

    -- A render with what the two queries have: the fields are set once, when both have loaded.
    unfoldable pub render_page :
        Option BusinessNames → Option (BusinessSettingsOut N) → SettingsPage N → SettingsPage N
    unfolding hydrate
    render_page (some b) (some s) p =
        if not p.hydrated then record p { form = hydrate b s; hydrated = true } else p
    render_page _ _ p = p

module _ {ℓ} {N : Type ℓ} ⦃n : Number N⦄ (number_of : String → N) where
  unfoldable pub business_update : SettingsForm → BusinessNames
  business_update f = record { name = trim f.name; business_type = f.business_type }

  unfoldable pub settings_update : SettingsForm → BusinessSettingsUpdate N
  settings_update f = record {
    default_language = f.default_language;
    timezone = trim f.timezone;
    default_tax_percent = or_0 (number_of f.tax);
    default_service_charge_percent = or_0 (number_of f.service_charge);
    currency = trim f.currency;
    gstin = trim f.gstin;
    tax_label = if is_truthy (trim f.tax_label) then trim f.tax_label else "GST";
    tax_split_intra_state = f.split_tax;
    fssai_number = trim f.fssai;
    receipt_header_lines = f.receipt_header;
    receipt_footer_text = f.receipt_footer;
  }

  -- The button is there once the fields are set, and off while a save is under way.
  unfoldable pub save_settings : SettingsPage N → SettingsPage N
  unfolding business_update settings_update
  save_settings p =
      if p.hydrated && not p.pending
      then record p {
        pending = true;
        error = none;
        sent = p.sent ++ ((business_update p.form, settings_update p.form) ∷ []);
      }
      else p

-- The two requests of a save count as answered when both are.
pub data SettingsEvent {ℓ} (N : Type ℓ) : Type ℓ where
  renders : Option BusinessNames → Option (BusinessSettingsOut N) → SettingsEvent N
  types_form : SettingsForm → SettingsEvent N
  saves_page saved_page : SettingsEvent N
  save_failed : String → SettingsEvent N

module _ {ℓ} {N : Type ℓ} ⦃n : Number N⦄ (number_of : String → N) (text_of : N → String) where
  unfoldable pub settings_step : SettingsPage N → SettingsEvent N → SettingsPage N
  unfolding render_page save_settings
  settings_step p (renders b s) = render_page text_of b s p
  settings_step p (types_form f) = if p.hydrated then record p { form = f } else p
  settings_step p saves_page = save_settings number_of p
  settings_step p saved_page = record p { pending = false }
  settings_step p (save_failed message) = record p { pending = false; error = some message }

  unfoldable pub settings_run : SettingsPage N → List (SettingsEvent N) → SettingsPage N
  unfolding settings_step
  settings_run p [] = p
  settings_run p (e ∷ es) = settings_run (settings_step p e) es
