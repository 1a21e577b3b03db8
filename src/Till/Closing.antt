-- ===== src/Till/Closing.antt =====
-- The report of a closed shift, on the page of frontend/src/features/shifts/ShiftPage.tsx.
use why_not_grace_pos.Prelude.{
  ℕ, String, Bool, true, false, ◌≡◌, ◌∙◌, ap, inl, inr, refl, Option, none, some, List, [], ◌∷◌,
  tally, tally-append, every, Number, is_truthy, trim, Bool-cases, arith,
}
use why_not_grace_pos.Till.{
  ShiftReportOut, ShiftCall, opens, closes, ShiftPage, ShiftEvent, types_float, types_counted,
  types_notes, presses_open, presses_close, answered, refused, dismissed, handle_open, handle_close,
  shows_opening, is_none, shift_closed, shift_step, shift_run,
}

module _ {ℓ} {N : Type ℓ} where
  abbrev pub is_opening : ShiftCall N → Bool
  is_opening (opens x) = true
  is_opening (closes shift x notes) = false

  -- Anything but a dismissal or another answer.
  abbrev pub keeps_report : ShiftEvent N → Bool
  keeps_report (answered report) = false
  keeps_report dismissed = false
  keeps_report _ = true

module _ {ℓ} {N : Type ℓ} ⦃n : Number N⦄ (number_of : String → N) where
  -- The report is there, and shifts have been opened this often.
  abbrev Holds : ShiftReportOut N → ℕ → ShiftPage N → Type ℓ
  Holds r k p = (p.closed ≡ some r) × (tally is_opening p.calls ≡ k)

  closed_hides_opening :
      (r : ShiftReportOut N) (shift : Option String) (p : ShiftPage N)
      → p.closed ≡ some r
      → shows_opening shift p ≡ false
  unfolding shows_opening
  closed_hides_opening r none p c = ap is_none c
  closed_hides_opening r (some s) p c = refl

  handle_open-Holds :
      (r : ShiftReportOut N) (k : ℕ) (shift : Option String) (p : ShiftPage N)
      → Holds r k p
      → Holds r k (handle_open number_of shift p)
  unfolding handle_open
  handle_open-Holds r k shift p (c, t) = rw (closed_hides_opening r shift p c) (c, t)

  handle_close-Holds :
      (r : ShiftReportOut N) (k : ℕ) (shift : Option String) (p : ShiftPage N)
      → Holds r k p
      → Holds r k (handle_close number_of shift p)
  unfolding handle_close
  handle_close-Holds r k none p h = h
  handle_close-Holds r k (some s) p (c, t) = elim (Bool-cases (is_truthy (trim p.counted))) [
    | inl h ↦ rw (h) (c, tally-append is_opening p.calls _ ∙ omega (arith, t))
    | inr h ↦ rw (h) (c, t)
  ]

  shift_step-Holds :
      (r : ShiftReportOut N) (k : ℕ) (p : ShiftPage N) (x : ShiftEvent N)
      → keeps_report x ≡ true
      → Holds r k p
      → Holds r k (shift_step number_of p x)
  unfolding shift_step
  shift_step-Holds r k p (types_float s) e h = h
  shift_step-Holds r k p (types_counted s) e h = h
  shift_step-Holds r k p (types_notes s) e h = h
  shift_step-Holds r k p (presses_open shift) e h = handle_open-Holds r k shift p h
  shift_step-Holds r k p (presses_close shift) e h = handle_close-Holds r k shift p h
  shift_step-Holds r k p (answered report) e h = ground arith
  shift_step-Holds r k p refused e h = h
  shift_step-Holds r k p dismissed e h = ground arith

  shift_run-Holds :
      (r : ShiftReportOut N) (k : ℕ) (p : ShiftPage N) (xs : List (ShiftEvent N))
      → every keeps_report xs ≡ true
      → Holds r k p
      → Holds r k (shift_run number_of p xs)
  unfolding shift_run
  shift_run-Holds r k p [] e h = h
  shift_run-Holds r k p (x ∷ xs) e h =
      shift_run-Holds r k (shift_step number_of p x) xs (ground arith)
        (shift_step-Holds r k p x (ground arith) h)

  -- Once a close has been answered, whatever is typed, pressed or refused and whatever shift is open by
  -- then, until the summary is dismissed or another close is answered its report stays on the page, and
  -- no shift is opened from it.
  pub shift_run-shift_closed :
      (r : ShiftReportOut N) (p : ShiftPage N) (xs : List (ShiftEvent N))
      → every keeps_report xs ≡ true
      → ((shift_run number_of (shift_closed r p) xs).closed ≡ some r)
        × (tally is_opening (shift_run number_of (shift_closed r p) xs).calls
            ≡ tally is_opening p.calls)
  unfolding shift_closed
  shift_run-shift_closed r p xs e =
      shift_run-Holds r (tally is_opening p.calls) (shift_closed r p) xs e (refl, refl)
