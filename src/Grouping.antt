-- ===== src/Grouping.antt =====
-- Lists shown in groups: `sessions` of frontend/src/features/billing/BillingPage.tsx and `groups` of
-- frontend/src/features/settings/components/CounterRulesSection.tsx. A `Map` is the list of its entries
-- in the order of their first insertion.
pub mod Members
use why_not_grace_pos.Prelude.{
  String, Bool, true, false, not, ◌==◌, Option, none, some, List, [], ◌∷◌, ◌++◌, keep,
  if◌then◌else◌,
}
use why_not_grace_pos.Progress.{OrderStatus, same_status}

module _ {ℓ} {A : Type ℓ} where
  -- The entry of the key gets the element, or a new entry is set.
  unfoldable pub put_into : String → A → List (String × List A) → List (String × List A)
  put_into k x [] = (k, x ∷ []) ∷ []
  put_into k x ((l, xs) ∷ groups) =
      let rest : List (String × List A) = put_into k x groups in
      if l == k then (l, xs ++ (x ∷ [])) ∷ groups else (l, xs) ∷ rest

  unfoldable pub group_onto :
      (A → String) → List (String × List A) → List A → List (String × List A)
  unfolding put_into
  group_onto key groups [] = groups
  group_onto key groups (x ∷ xs) = group_onto key (put_into (key x) x groups) xs

  -- The entry's elements; a key without an entry has none.
  abbrev pub members : String → List (String × List A) → List A
  members k [] = []
  members k ((l, xs) ∷ groups) = if l == k then xs else members k groups

-- Of `OrderOut` and `ToggleOut`, what the groups are made by.
pub record OrderOut : Type 0 where
  pub id : String
  pub session_id : String
  pub location_id : Option String
  pub status : OrderStatus

pub record ToggleOut : Type 0 where
  pub key : String
  pub group : String

unfoldable pub toggle_groups : List ToggleOut → List (String × List ToggleOut)
unfolding group_onto
toggle_groups toggles = group_onto (λ t. t.group) [] toggles

-- The orders to bill, by session; cancelled ones are left out.
unfoldable pub sessions : List OrderOut → List (String × List OrderOut)
unfolding group_onto
sessions orders =
    group_onto (λ o. o.session_id) []
      (keep (λ o. not (same_status o.status OrderStatus.cancelled)) orders)
