-- ===== src/Billing/Payments.antt =====
-- What the payment panel records.
use why_not_grace_pos.Prelude.{
  ◌⊎◌, ◌≡◌, refl, String, Bool, true, some, List, [], ◌∷◌, arith, Number, every, every-append,
  Bool-cases, inl, inr,
}
use why_not_grace_pos.Billing.{
  BillOut, PaymentMethod, ManualPayment, PaymentPanel, remaining, fill, open_panel, set_tab,
  type_amount, type_received, handle_manual_confirm,
}

-- What happens to the panel, each with the bill as it then is: the remaining amount changes, a tab
-- is chosen, an amount is typed, the payment is confirmed, or the backend refuses it.
pub data PanelEvent {ℓ} (N : Type ℓ) : Type ℓ where
  refills : BillOut N → PanelEvent N
  tabs : BillOut N → PaymentMethod → PanelEvent N
  types_amount types_received : String → PanelEvent N
  confirms : BillOut N → PanelEvent N
  fails : String → PanelEvent N

module _ {ℓ} {N : Type ℓ} ⦃n : Number N⦄ where
  abbrev pub is_payment : ManualPayment N → Bool
  is_payment m = n.lt (n.of_ℕ 0) m.amount

  -- Until the cashier types what was received, it is the amount; and every recorded payment is of
  -- more than zero.
  abbrev pub IsSound : PaymentPanel N → Type 0
  IsSound p =
      ((p.received_touched ≡ true) ⊎ (p.received ≡ p.amount)) × (every is_payment p.recorded ≡ true)

module _ {ℓ} {N : Type ℓ} ⦃n : Number N⦄ (number_of : String → N) (text_of : N → String) where
  unfoldable pub panel_step : PaymentPanel N → PanelEvent N → PaymentPanel N
  unfolding fill remaining set_tab type_amount type_received handle_manual_confirm
  panel_step p (refills b) = fill number_of text_of (remaining b) p
  panel_step p (tabs b method) = set_tab number_of text_of b method p
  panel_step p (types_amount text) = type_amount number_of text_of text p
  panel_step p (types_received text) = type_received number_of text_of text p
  panel_step p (confirms b) = handle_manual_confirm number_of text_of "payment.invalidAmount" b p
  panel_step p (fails message) = record p { error = some message }

  unfoldable pub panel_run : PaymentPanel N → List (PanelEvent N) → PaymentPanel N
  panel_run p [] = p
  panel_run p (e ∷ es) = panel_run (panel_step p e) es

  confirm-IsSound :
      (p : PaymentPanel N) (b : BillOut N) (invalid : String)
      → IsSound p
      → IsSound (handle_manual_confirm number_of text_of invalid b p)
  unfolding handle_manual_confirm
  confirm-IsSound p b invalid (u, h) = elim (Bool-cases (n.lt (n.of_ℕ 0) (number_of p.amount))) [
    | inl e ↦ rw (e) (
      u,
      ground (
        arith,
        every-append is_payment p.recorded
            (record { bill_id = b.id; amount = number_of p.amount; method = p.tab } ∷ []),
      ),
    )
    | inr e ↦ rw (e) (u, h)
  ]

  panel_step-IsSound :
      (p : PaymentPanel N) (e : PanelEvent N) → IsSound p → IsSound (panel_step p e)
  unfolding panel_step
  panel_step-IsSound p (refills b) (u, h) = (inr refl, h)
  panel_step-IsSound p (tabs b method) (u, h) = (inr refl, h)
  panel_step-IsSound p (types_amount text) (u, h) = ground arith
  panel_step-IsSound p (types_received text) (u, h) = (inl refl, h)
  panel_step-IsSound p (confirms b) v = confirm-IsSound p b "payment.invalidAmount" v
  panel_step-IsSound p (fails message) (u, h) = (u, h)

  panel_run-IsSound :
      (p : PaymentPanel N) (es : List (PanelEvent N)) → IsSound p → IsSound (panel_run p es)
  unfolding panel_run
  panel_run-IsSound p [] v = v
  panel_run-IsSound p (e ∷ es) v = panel_run-IsSound (panel_step p e) es (panel_step-IsSound p e v)

  -- Whatever is chosen, typed, confirmed and refused after the panel opened: every recorded payment
  -- is of more than zero, and what counts as received is the amount to be paid until the cashier
  -- types another.
  pub panel_run_opened :
      (b : BillOut N) (es : List (PanelEvent N))
      → IsSound (panel_run (open_panel number_of text_of b) es)
  unfolding open_panel
  panel_run_opened b es = panel_run-IsSound (open_panel number_of text_of b) es (inr refl, refl)
