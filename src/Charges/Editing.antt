-- ===== src/Charges/Editing.antt =====
-- What the dialog of a band sends.
use why_not_grace_pos.Prelude.{
  String, true, ◌≡◌, refl, Option, none, some, Number, is_truthy, or_none, trim,
}
use why_not_grace_pos.MenuEditor.Drafts.{or_0-same}
use why_not_grace_pos.Charges.{
  ChargeBandOut, updates, bound_text, bound_of, context_of, band_form, band_payload, handle_save,
}

module _ {ℓ} {N : Type ℓ} ⦃n : Number N⦄ (number_of : String → N) (text_of : N → String) where
  bound_of-bound_text :
      ((x : N) → number_of (text_of x) ≡ x)
      → ((x : N) → is_truthy (trim (text_of x)) ≡ true)
      → (o : Option N) → bound_of number_of (bound_text text_of o) ≡ o
  unfolding trim
  bound_of-bound_text h g none = refl
  bound_of-bound_text h g (some x) = rw (g x, h x) refl

  -- A band whose name has no white space at its ends and whose context is not the empty text is saved
  -- as it is when the dialog opens on it and the fields are left alone: one update of that band goes
  -- out, with each value as it was, an upper bound of zero and a missing one included. Numbers are
  -- taken to be read back from their texts, which are not blank, and the two amounts to be numbers, of
  -- which 0 is the only one that equals 0.
  pub band_form-handle_save :
      ((x : N) → number_of (text_of x) ≡ x)
      → ((x : N) → is_truthy (trim (text_of x)) ≡ true)
      → ((x : N) → n.same x (n.of_ℕ 0) ≡ true → x ≡ n.of_ℕ 0)
      → (b : ChargeBandOut N) (default_name : Option String) → trim b.band.name ≡ b.band.name
      → or_none (context_of b) ≡ b.band.applies_to_context
      → n.same b.band.min_amount b.band.min_amount ≡ true
      → n.same b.band.value b.band.value ≡ true
      → handle_save number_of (some b) (band_form text_of (some b) default_name)
        ≡ updates b.id b.band
  unfolding handle_save band_payload band_form
  band_form-handle_save h g zero b default_name t c m v =
      rw
        (
          t,
          c,
          h b.band.min_amount,
          h b.band.value,
          or_0-same zero b.band.min_amount m,
          or_0-same zero b.band.value v,
          bound_of-bound_text h g b.band.max_amount,
        )
        refl
