-- ===== src/Settings/Saving.antt =====
-- What a save of the settings sends.
use why_not_grace_pos.Prelude.{
  String, true, not, ◌&&◌, ◌≡◌, refl, ap, ◌∙◌, inl, inr, Option, none, some, List, [], ◌∷◌, All,
  All-append, Number, Bool-cases, is_truthy, trim,
}
use why_not_grace_pos.MenuEditor.{or_text}
use why_not_grace_pos.MenuEditor.Drafts.{or_0-same}
use why_not_grace_pos.Settings.{
  BusinessNames, BusinessSettingsOut, BusinessSettingsUpdate, SettingsForm, SettingsPage, new_page,
  hydrate, render_page, business_update, settings_update, save_settings, SettingsEvent, renders,
  types_form, saves_page, saved_page, save_failed, settings_step, settings_run,
}

-- The settings' own values; a text that is missing is sent as an empty one.
abbrev pub values_of {ℓ} : {N : Type ℓ} → BusinessSettingsOut N → BusinessSettingsUpdate N
values_of s = record {
  default_language = s.default_language;
  timezone = s.timezone;
  default_tax_percent = s.default_tax_percent;
  default_service_charge_percent = s.default_service_charge_percent;
  currency = s.currency;
  gstin = or_text s.gstin "";
  tax_label = s.tax_label;
  tax_split_intra_state = s.tax_split_intra_state;
  fssai_number = or_text s.fssai_number "";
  receipt_header_lines = or_text s.receipt_header_lines "";
  receipt_footer_text = or_text s.receipt_footer_text "";
}

abbrev pub IsUntouched {ℓ} : {N : Type ℓ} → SettingsEvent N → Type 0
IsUntouched (types_form f) = ⊥
IsUntouched _ = Unit

module _ {ℓ} {N : Type ℓ} ⦃n : Number N⦄ where
  -- The texts that are sent trimmed have no white space at their ends, the tax has a label, and the
  -- percentages are numbers.
  pub record IsTidy (b : BusinessNames) (s : BusinessSettingsOut N) : Type ℓ where
    pub name : trim b.name ≡ b.name
    pub timezone : trim s.timezone ≡ s.timezone
    pub currency : trim s.currency ≡ s.currency
    pub gstin : trim (or_text s.gstin "") ≡ or_text s.gstin ""
    pub fssai : trim (or_text s.fssai_number "") ≡ or_text s.fssai_number ""
    pub label : trim s.tax_label ≡ s.tax_label
    pub labelled : is_truthy s.tax_label ≡ true
    pub tax : n.same s.default_tax_percent s.default_tax_percent ≡ true
    pub charge : n.same s.default_service_charge_percent s.default_service_charge_percent ≡ true

module _ {ℓ} {N : Type ℓ} ⦃n : Number N⦄ (number_of : String → N) (text_of : N → String) where
  -- What a save sends of the fields.
  abbrev sent_of : SettingsForm → BusinessNames × BusinessSettingsUpdate N
  sent_of f = (business_update number_of f, settings_update number_of f)

  update-hydrate :
      ((x : N) → number_of (text_of x) ≡ x)
      → ((x : N) → n.same x (n.of_ℕ 0) ≡ true → x ≡ n.of_ℕ 0)
      → (b : BusinessNames) (s : BusinessSettingsOut N) → IsTidy b s
      → sent_of (hydrate text_of b s) ≡ (b, values_of s)
  unfolding business_update settings_update hydrate
  update-hydrate h zero b s t =
      rw
        (
          t.name,
          t.timezone,
          t.currency,
          t.gstin,
          t.fssai,
          t.label,
          t.labelled,
          h s.default_tax_percent,
          h s.default_service_charge_percent,
          or_0-same zero s.default_tax_percent t.tax,
          or_0-same zero s.default_service_charge_percent t.charge,
        )
        refl

  -- The fields are those of the two answers, and so is all that was sent.
  IsOf : BusinessNames → BusinessSettingsOut N → SettingsPage N → Type ℓ
  IsOf b s p =
      (p.hydrated ≡ true) × (p.form ≡ hydrate text_of b s) × All (λ r. r ≡ (b, values_of s)) p.sent

  save_settings-IsOf :
      ((x : N) → number_of (text_of x) ≡ x)
      → ((x : N) → n.same x (n.of_ℕ 0) ≡ true → x ≡ n.of_ℕ 0)
      → (b : BusinessNames) (s : BusinessSettingsOut N) → IsTidy b s
      → (p : SettingsPage N) → IsOf b s p
      → IsOf b s (save_settings number_of p)
  unfolding save_settings IsOf
  save_settings-IsOf h zero b s t p (hy, f, a) = elim (Bool-cases (p.hydrated && not p.pending)) [
    | inl k ↦
        rw (k) (hy, f, All-append _ p.sent _ a (ap sent_of f ∙ update-hydrate h zero b s t, _))
    | inr k ↦ rw (k) (hy, f, a)
  ]

  render_page-IsOf :
      (b : BusinessNames) (s : BusinessSettingsOut N) (c : Option BusinessNames)
      (u : Option (BusinessSettingsOut N)) (p : SettingsPage N)
      → IsOf b s p
      → IsOf b s (render_page text_of c u p)
  unfolding render_page IsOf
  render_page-IsOf b s (some c) (some u) p (hy, f, a) = rw (hy) (refl, f, a)
  render_page-IsOf b s none u p v = v
  render_page-IsOf b s (some c) none p v = v

  settings_step-IsOf :
      ((x : N) → number_of (text_of x) ≡ x)
      → ((x : N) → n.same x (n.of_ℕ 0) ≡ true → x ≡ n.of_ℕ 0)
      → (b : BusinessNames) (s : BusinessSettingsOut N) → IsTidy b s
      → (p : SettingsPage N) (e : SettingsEvent N) → IsUntouched e
      → IsOf b s p
      → IsOf b s (settings_step number_of text_of p e)
  unfolding settings_step IsOf
  settings_step-IsOf h zero b s t p (renders c u) i v = render_page-IsOf b s c u p v
  settings_step-IsOf h zero b s t p (types_form f) i v = absurd i
  settings_step-IsOf h zero b s t p saves_page i v = save_settings-IsOf h zero b s t p v
  settings_step-IsOf h zero b s t p saved_page i v = v
  settings_step-IsOf h zero b s t p (save_failed message) i v = v

  settings_run-IsOf :
      ((x : N) → number_of (text_of x) ≡ x)
      → ((x : N) → n.same x (n.of_ℕ 0) ≡ true → x ≡ n.of_ℕ 0)
      → (b : BusinessNames) (s : BusinessSettingsOut N) → IsTidy b s
      → (p : SettingsPage N) (es : List (SettingsEvent N)) → All IsUntouched es
      → IsOf b s p
      → IsOf b s (settings_run number_of text_of p es)
  unfolding settings_run
  settings_run-IsOf h zero b s t p [] i v = v
  settings_run-IsOf h zero b s t p (e ∷ es) (i, is) v =
      settings_run-IsOf h zero b s t (settings_step number_of text_of p e) es is
        (settings_step-IsOf h zero b s t p e i v)

  -- Once the business and its settings have loaded, and as long as nothing is typed: every save sends
  -- both as they were first loaded, with an empty text for a missing one, however often they are
  -- loaded again, with whatever changes, in between. The name, the time zone, the currency, the GSTIN,
  -- the FSSAI number and the label of the tax are taken to have no white space at their ends, and the
  -- label not to be empty; the percentages to be numbers of which only 0 equals 0, and numbers to be
  -- read back from their texts.
  pub settings_run-sent :
      ((x : N) → number_of (text_of x) ≡ x)
      → ((x : N) → n.same x (n.of_ℕ 0) ≡ true → x ≡ n.of_ℕ 0)
      → (b : BusinessNames) (s : BusinessSettingsOut N) → IsTidy b s
      → (es : List (SettingsEvent N)) → All IsUntouched es
      → All
          (λ r. r ≡ (b, values_of s))
          (settings_run number_of text_of (render_page text_of (some b) (some s) new_page) es).sent
  unfolding render_page IsOf
  settings_run-sent h zero b s t es i =
      (settings_run-IsOf h zero b s t (render_page text_of (some b) (some s) new_page) es i
        (refl, refl, _)).2
