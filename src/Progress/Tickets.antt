-- ===== src/Progress/Tickets.antt =====
-- The kitchen's tickets between frontend/src/features/kitchen and the service, and the guest's progress.
use why_not_grace_pos.Prelude.{
  ℕ, zero, suc, ◌<◌, true, Option, none, some, List, [], ◌∷◌, ◌≡◌, ◌↔◌, ◌⊎◌, inl, inr, refl, arith,
}
use why_not_grace_pos.Kitchen.{KotStatus, advance, cancel, asked, next_status}
use why_not_grace_pos.Progress.{OrderStatus, step_index, progress_steps, find_index, same_status}
use why_not_grace_pos.Progress.Backend.{update_kot_status, is_queued}

-- For a ticket of the kitchen's queue, the service accepts exactly what the two buttons of the ticket
-- ask for.
pub update_kot_status_iff :
    (s t : KotStatus)
    → is_queued s ≡ true
    → (update_kot_status s t ≡ some t) ↔ ((asked advance s ≡ some t) ⊎ (asked cancel s ≡ some t))
unfolding update_kot_status is_queued asked next_status
update_kot_status_iff s t h = ground arith

abbrev pub nth : List OrderStatus → ℕ → Option OrderStatus
nth [] i = none
nth (s ∷ ss) zero = some s
nth (s ∷ ss) (suc i) = nth ss i

-- The guest's progress is one of the five steps; at a status that is a step it is that step.
pub step_index-bound :
    (s : OrderStatus)
    → (step_index s < 5)
      × ((nth progress_steps (step_index s) ≡ some s)
          ⊎ (find_index (λ t. same_status t s) progress_steps ≡ none))
unfolding step_index
step_index-bound OrderStatus.placed = (omega arith, inl refl)
step_index-bound OrderStatus.confirmed = (omega arith, inl refl)
step_index-bound OrderStatus.preparing = (omega arith, inl refl)
step_index-bound OrderStatus.ready = (omega arith, inl refl)
step_index-bound OrderStatus.out_for_delivery = (omega arith, inr refl)
step_index-bound OrderStatus.served = (omega arith, inl refl)
step_index-bound OrderStatus.delivered = (omega arith, inr refl)
step_index-bound OrderStatus.completed = (omega arith, inr refl)
step_index-bound OrderStatus.cancelled = (omega arith, inr refl)
