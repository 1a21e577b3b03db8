-- ===== src/Kitchen/Board.antt =====
-- A ticket's way through the kitchen.
use why_not_grace_pos.Prelude.{ℕ, suc, ◌+◌, ◌≤◌, ◌≡◌, ap, ◌↔◌, none, some, arith, Bool, true, false}
use why_not_grace_pos.Kitchen.{
  KotStatus, new, accepted, preparing, cancelled, next_status, next_label_key, advance, cancel,
  asked,
}

-- How many steps the kitchen has still to take.
abbrev pub steps_left : KotStatus → ℕ
steps_left new = 3
steps_left accepted = 2
steps_left preparing = 1
steps_left _ = 0

-- What the backend makes of the clicks, if it does what it is asked: the statuses that a ticket
-- can reach, with how often it was advanced and whether it was ever cancelled.
pub data Reach (start : KotStatus) : KotStatus → ℕ → Bool → Type 0 where
  here : Reach start start 0 false
  advanced :
      {s t : KotStatus} {n : ℕ} {c : Bool}
      → Reach start s n c
      → asked advance s ≡ some t
      → Reach start t (suc n) c
  stopped :
      {s t : KotStatus} {n : ℕ} {c : Bool}
      → Reach start s n c
      → asked cancel s ≡ some t
      → Reach start t n true

asked_advance : (s t : KotStatus) → asked advance s ≡ some t → steps_left s ≡ suc (steps_left t)
unfolding asked
asked_advance new t h = ground arith
asked_advance accepted t h = ground arith
asked_advance preparing t h = ground arith
asked_advance s t h = ground arith

asked-cancel : (s t : KotStatus) → asked cancel s ≡ some t → t ≡ cancelled
unfolding asked
asked-cancel s t h = ground arith

-- From any status, a ticket is advanced at most as often as there are steps left, three for a new
-- one: advancing ends.
pub Reach-bound :
    {s t : KotStatus} {n : ℕ} {c : Bool} → Reach s t n c → n + steps_left t ≤ steps_left s
Reach-bound here = omega arith
Reach-bound (advanced {s} {t} r h) = omega (arith, Reach-bound r, asked_advance s t h)
Reach-bound (stopped {s} {t} r h) = omega (arith, Reach-bound r, ap steps_left (asked-cancel s t h))

-- A ticket that was never cancelled has been advanced exactly as often as the statuses lie apart:
-- no status is skipped, and a new ticket that is ready was accepted and prepared before.
pub Reach-exact :
    {s t : KotStatus} {n : ℕ} {c : Bool}
    → Reach s t n c
    → c ≡ false
    → n + steps_left t ≡ steps_left s
Reach-exact here h = omega arith
Reach-exact (advanced {s} {t} r e) h = omega (arith, Reach-exact r h, asked_advance s t e)
Reach-exact (stopped {s} {t} r e) h = cc

-- A ticket has a button to advance it exactly when that button has a label.
pub next_status-label : (s : KotStatus) → (next_status s ≡ none) ↔ (next_label_key s ≡ none)
unfolding next_status next_label_key
next_status-label new = ground arith
next_status-label accepted = ground arith
next_status-label preparing = ground arith
next_status-label s = ground arith
