-- ===== src/Till.antt =====
-- The cash drawer: frontend/src/features/shifts/ShiftPage.tsx. `Number(text)` is the language's own
-- conversion, and an argument here; the shift that is open is the answer of a query and comes with each
-- event.
pub mod Closing
use why_not_grace_pos.Prelude.{
  String, Bool, true, false, not, ◌&&◌, Option, none, some, List, [], ◌∷◌, ◌++◌, Number, is_truthy,
  or_none, trim, if◌then◌else◌,
}
use why_not_grace_pos.Format.{absolute}
use why_not_grace_pos.MenuEditor.Drafts.{or_0}

-- Of `ShiftReportOut`, what the summary reads.
pub record ShiftReportOut {ℓ} (N : Type ℓ) : Type ℓ where
  pub shift_id : String
  pub expected_cash : Option N
  pub declared_cash : Option N
  pub variance : Option N

pub data ShiftCall {ℓ} (N : Type ℓ) : Type ℓ where
  opens : N → ShiftCall N
  closes : String → N → Option String → ShiftCall N

-- The page's state, and the calls that it has made.
pub record ShiftPage {ℓ} (N : Type ℓ) : Type ℓ where
  pub float : String
  pub counted : String
  pub notes : String
  pub closed : Option (ShiftReportOut N)
  pub calls : List (ShiftCall N)

pub data Verdict {ℓ} (N : Type ℓ) : Type ℓ where
  balanced : Verdict N
  short_by over_by : N → Verdict N

abbrev pub is_none {ℓ} : {A : Type ℓ} → Option A → Bool
is_none none = true
is_none (some a) = false

module _ {ℓ} {N : Type ℓ} where
  abbrev pub first_page : ShiftPage N
  first_page = record { float = "0"; counted = ""; notes = ""; closed = none; calls = [] }

  -- The card that opens a shift: no shift is open, and no summary waits to be read.
  unfoldable pub shows_opening : Option String → ShiftPage N → Bool
  shows_opening shift p = is_none shift && is_none p.closed

  -- The answer to a close: the report is kept on the page.
  unfoldable pub shift_closed : ShiftReportOut N → ShiftPage N → ShiftPage N
  shift_closed report p = record p { closed = some report; counted = ""; notes = "" }

  unfoldable pub dismiss : ShiftPage N → ShiftPage N
  dismiss p = record p { closed = none }

module _ {ℓ} {N : Type ℓ} ⦃n : Number N⦄ where
  abbrev or_zero : Option N → N
  or_zero none = n.of_ℕ 0
  or_zero (some x) = x

  -- What `ClosedSummary` says, with half a paisa of tolerance.
  unfoldable pub verdict : ShiftReportOut N → Verdict N
  verdict r =
      let variance : N = or_zero r.variance in
      if n.lt (absolute variance) (n.div (n.of_ℕ 5) (n.of_ℕ 1000))
      then balanced
      else if n.lt variance (n.of_ℕ 0)
      then short_by (absolute variance)
      else over_by variance

module _ {ℓ} {N : Type ℓ} ⦃n : Number N⦄ (number_of : String → N) where
  -- `handleOpen`, from its card.
  unfoldable pub handle_open : Option String → ShiftPage N → ShiftPage N
  unfolding shows_opening
  handle_open shift p =
      if shows_opening shift p
      then record p { calls = p.calls ++ (opens (or_0 (number_of p.float)) ∷ []) }
      else p

  -- `handleClose`, whose button is off while nothing is counted.
  unfoldable pub handle_close : Option String → ShiftPage N → ShiftPage N
  handle_close none p = p
  handle_close (some shift) p =
      if is_truthy (trim p.counted)
      then record p {
        calls =
            p.calls ++ (closes shift (or_0 (number_of p.counted)) (or_none (trim p.notes)) ∷ []);
      }
      else p

pub data ShiftEvent {ℓ} (N : Type ℓ) : Type ℓ where
  types_float types_counted types_notes : String → ShiftEvent N
  presses_open presses_close : Option String → ShiftEvent N
  answered : ShiftReportOut N → ShiftEvent N
  refused dismissed : ShiftEvent N

module _ {ℓ} {N : Type ℓ} ⦃n : Number N⦄ (number_of : String → N) where
  unfoldable pub shift_step : ShiftPage N → ShiftEvent N → ShiftPage N
  shift_step p (types_float s) = record p { float = s }
  shift_step p (types_counted s) = record p { counted = s }
  shift_step p (types_notes s) = record p { notes = s }
  shift_step p (presses_open shift) = handle_open number_of shift p
  shift_step p (presses_close shift) = handle_close number_of shift p
  shift_step p (answered report) = shift_closed report p
  shift_step p refused = p
  shift_step p dismissed = dismiss p

  unfoldable pub shift_run : ShiftPage N → List (ShiftEvent N) → ShiftPage N
  unfolding shift_step
  shift_run p [] = p
  shift_run p (x ∷ xs) = shift_run (shift_step p x) xs
