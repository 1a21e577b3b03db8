-- ===== src/Queries/Tests.antt =====
-- The theorems about the hooks at concrete queries and mutations.
use why_not_grace_pos.Prelude.{some, none, every, true, ◌≡◌, [], ◌∷◌, refl}
use why_not_grace_pos.Queries.Options.{name}
use why_not_grace_pos.Queries.Registry.{bill, dashboard, void_bill, query_of, mutation_of}
use why_not_grace_pos.Queries.Coherence.{query_key-query_fn}
use why_not_grace_pos.Queries.Parents.{section}
use why_not_grace_pos.Queries.Refresh.{Refreshes, mutation_of-Refreshes}
use why_not_grace_pos.Access.{owner}
use why_not_grace_pos.Queries.Enabled.{is_filled, enabled-is_filled}
use why_not_grace_pos.Queries.Coverage.{IsAnswer}

query_key-query_fn_example :
    (query_of (dashboard (some owner))).query_fn ≡ (query_of (dashboard none)).query_fn
query_key-query_fn_example =
    query_key-query_fn (dashboard (some owner)) (dashboard none) refl refl refl

voided : IsAnswer (void_bill (some "b7") (some "spilt")) "b7"
unfolding IsAnswer
voided = refl

-- Voiding a bill refreshes the bill.
mutation_of-Refreshes_example :
    Refreshes
      ((mutation_of (void_bill (some "b7") (some "spilt"))).on_success "b7")
      (name "billing" ∷ name "b7" ∷ [])
mutation_of-Refreshes_example =
    mutation_of-Refreshes (void_bill (some "b7") (some "spilt")) (bill (some "b7")) "b7"
      (section "void") voided refl refl

enabled-is_filled_example : every is_filled ((query_of (bill (some "b7"))).query_fn.path) ≡ true
enabled-is_filled_example = enabled-is_filled (bill (some "b7")) refl
