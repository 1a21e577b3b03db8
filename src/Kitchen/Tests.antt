-- ===== src/Kitchen/Tests.antt =====
-- The theorems about the kitchen at concrete tickets.
use why_not_grace_pos.Prelude.{false, refl}
use why_not_grace_pos.Kitchen.{new, ready, asked}
use why_not_grace_pos.Kitchen.Board.{Reach, here, advanced}

new_to_ready : Reach new ready 3 false
unfolding asked
new_to_ready = advanced (advanced (advanced here refl) refl) refl
