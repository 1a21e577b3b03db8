-- ===== src/Charges/Sorting.antt =====
-- The order that the bands of a ladder are sorted into.
use why_not_grace_pos.Prelude.{
  ◌+◌, Bool, true, false, ◌≡◌, refl, ap, ◌∙◌, inl, inr, List, [], ◌∷◌, tally, All, Number,
  Bool-cases, if◌then◌else◌, arith,
}
use why_not_grace_pos.Charges.{ChargeBandOut, in_order, place, sort_by_min}

module _ {ℓ} {N : Type ℓ} ⦃n : Number N⦄ where
  -- The bands stand by their lower bounds.
  abbrev pub IsAscending : List (ChargeBandOut N) → Type 0
  IsAscending [] = Unit
  IsAscending (b ∷ bs) = All (λ c. in_order b c ≡ true) bs × IsAscending bs

  abbrev pub le_0 : N → N → Bool
  le_0 x y = n.le (n.sub x y) (n.of_ℕ 0)

  tally-place :
      (p : ChargeBandOut N → Bool) (b : ChargeBandOut N) (bs : List (ChargeBandOut N))
      → tally p (place b bs) ≡ tally p (b ∷ bs)
  unfolding place
  tally-place p b [] = refl
  tally-place p b (c ∷ bs) = elim (Bool-cases (in_order b c)) [
    | inl e ↦ rw (e) refl
    | inr e ↦ rw (e) (omega (arith, tally-place p b bs))
  ]

  pub tally-sort_by_min :
      (p : ChargeBandOut N → Bool) (bs : List (ChargeBandOut N))
      → tally p (sort_by_min bs) ≡ tally p bs
  unfolding sort_by_min
  tally-sort_by_min p [] = refl
  tally-sort_by_min p (b ∷ bs) =
      tally-place p b (sort_by_min bs)
      ∙ ap (λ k. (if p b then 1 else 0) + k) (tally-sort_by_min p bs)

  All-place :
      (a b : ChargeBandOut N) (bs : List (ChargeBandOut N))
      → in_order a b ≡ true
      → All (λ c. in_order a c ≡ true) bs
      → All (λ c. in_order a c ≡ true) (place b bs)
  unfolding place
  All-place a b [] h hs = (h, _)
  All-place a b (c ∷ bs) h (i, hs) = elim (Bool-cases (in_order b c)) [
    | inl e ↦ rw (e) (h, (i, hs))
    | inr e ↦ rw (e) (i, All-place a b bs h hs)
  ]

  All-in_order :
      ((x y z : N) → le_0 x y ≡ true → le_0 y z ≡ true → le_0 x z ≡ true)
      → (a b : ChargeBandOut N) (bs : List (ChargeBandOut N)) → in_order a b ≡ true
      → All (λ c. in_order b c ≡ true) bs
      → All (λ c. in_order a c ≡ true) bs
  unfolding in_order
  All-in_order trans a b [] h hs = _
  All-in_order trans a b (c ∷ bs) h (i, hs) = (
    trans a.band.min_amount b.band.min_amount c.band.min_amount h i,
    All-in_order trans a b bs h hs,
  )

  place-IsAscending :
      ((x y : N) → le_0 x y ≡ false → le_0 y x ≡ true)
      → ((x y z : N) → le_0 x y ≡ true → le_0 y z ≡ true → le_0 x z ≡ true)
      → (b : ChargeBandOut N) (bs : List (ChargeBandOut N)) → IsAscending bs
      → IsAscending (place b bs)
  unfolding place in_order
  place-IsAscending total trans b [] h = (_, _)
  place-IsAscending total trans b (c ∷ bs) (h, hs) = elim (Bool-cases (in_order b c)) [
    | inl e ↦ rw (e) ((e, All-in_order trans b c bs e h), (h, hs))
    | inr e ↦ rw (e) (
      All-place c b bs (total b.band.min_amount c.band.min_amount e) h,
      place-IsAscending total trans b bs hs,
    )
  ]

  pub sort_by_min-IsAscending :
      ((x y : N) → le_0 x y ≡ false → le_0 y x ≡ true)
      → ((x y z : N) → le_0 x y ≡ true → le_0 y z ≡ true → le_0 x z ≡ true)
      → (bs : List (ChargeBandOut N)) → IsAscending (sort_by_min bs)
  unfolding sort_by_min
  sort_by_min-IsAscending total trans [] = _
  sort_by_min-IsAscending total trans (b ∷ bs) =
      place-IsAscending total trans b (sort_by_min bs) (sort_by_min-IsAscending total trans bs)
