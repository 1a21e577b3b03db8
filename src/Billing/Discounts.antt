-- ===== src/Billing/Discounts.antt =====
-- What the discount form posts.
use why_not_grace_pos.Prelude.{
  ◌≡◌, refl, ◌⊎◌, inl, inr, String, true, false, none, some, [], ◌∷◌, ◌++◌, Number, is_truthy, trim,
  Bool-cases,
}
use why_not_grace_pos.Billing.{
  BillOut, DiscountMode, by_percent, by_amount, DiscountForm, ApplyDiscountRequest,
  discount_request, handle_apply,
}

module _ {ℓ} {N : Type ℓ} where
  -- A discount is by percent or by amount, never both.
  abbrev pub IsEither : N → ApplyDiscountRequest N → Type ℓ
  IsEither v r =
      ((r.percent ≡ some v) × (r.amount ≡ none)) ⊎ ((r.percent ≡ none) × (r.amount ≡ some v))

  discount_request-IsEither :
      (v : N) (f : DiscountForm N) (mode : DiscountMode)
      → f.mode ≡ mode
      → IsEither v (discount_request v f)
  unfolding discount_request
  discount_request-IsEither v f by_percent h = rw (h) (inl (refl, refl))
  discount_request-IsEither v f by_amount h = rw (h) (inr (refl, refl))

module _ {ℓ} {N : Type ℓ} ⦃n : Number N⦄ (number_of : String → N) where
  -- With a name that is not blank and a value above zero, one request goes out for the bill, by
  -- percent or by amount and never both; otherwise none goes out and an error shows.
  pub handle_apply_posts :
      (invalid : String) (b : BillOut N) (f : DiscountForm N)
      → let v = number_of f.value in
        let after = handle_apply number_of invalid b f in
        ((is_truthy (trim f.name) ≡ true)
          × (n.lt (n.of_ℕ 0) v ≡ true)
          × (after.applied ≡ f.applied ++ ((b.id, discount_request v f) ∷ []))
          × IsEither v (discount_request v f))
        ⊎ (((is_truthy (trim f.name) ≡ false) ⊎ (n.lt (n.of_ℕ 0) v ≡ false))
            × (after ≡ record f { error = some invalid }))
  unfolding handle_apply
  handle_apply_posts invalid b f =
      let v = number_of f.value in
      elim (Bool-cases (is_truthy (trim f.name))) [
        | inr e ↦ rw (e) (inr (inl refl, refl))
        | inl e ↦ elim (Bool-cases (n.lt (n.of_ℕ 0) v)) [
          | inl g ↦ rw (e, g) (inl (refl, refl, refl, discount_request-IsEither v f f.mode refl))
          | inr g ↦ rw (e, g) (inr (inr refl, refl))
        ]
      ]
