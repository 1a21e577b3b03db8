-- ===== src/Grouping/Members.antt =====
-- What a group holds.
use why_not_grace_pos.Prelude.{
  append_assoc, append_nil, String, Bool, true, false, not, ◌==◌, eq_iff, ◌≡◌, ◌∙◌, refl, sym, ap,
  inl, inr, List, [], ◌∷◌, ◌++◌, keep, if◌then◌else◌, Bool-cases, arith,
}
use why_not_grace_pos.Progress.{OrderStatus, same_status}
use why_not_grace_pos.Grouping.{
  put_into, group_onto, members, OrderOut, ToggleOut, toggle_groups, sessions,
}

same_test : {b : Bool} (l k j : String) → (l == k) ≡ true → (l == j) ≡ b → (k == j) ≡ b
same_test l k j h e = ap (λ s. s == j) (sym ((eq_iff l k).0 h)) ∙ e

other_test : (l k j : String) → (l == k) ≡ false → (l == j) ≡ true → (k == j) ≡ false
other_test l k j h e = ground (arith, eq_iff l k, eq_iff l j, eq_iff k j)

module _ {ℓ} {A : Type ℓ} where
  members-put_into :
      (k j : String) (x : A) (groups : List (String × List A))
      → members j (put_into k x groups) ≡ members j groups ++ (if k == j then x ∷ [] else [])
  unfolding put_into
  members-put_into k j x [] = ground arith
  members-put_into k j x ((l, xs) ∷ groups) = elim (Bool-cases (l == k)) [
    | inl lk ↦ elim (Bool-cases (l == j)) [
      | inl lj ↦ rw (lk, lj, same_test l k j lk lj) refl
      | inr lj ↦ rw (lk, lj, same_test l k j lk lj) (sym (append_nil (members j groups)))
    ]
    | inr lk ↦ elim (Bool-cases (l == j)) [
      | inl lj ↦ rw (lk, lj, other_test l k j lk lj) (sym (append_nil xs))
      | inr lj ↦ rw (lk, lj) (members-put_into k j x groups)
    ]
  ]

  one_kept :
      (b : Bool) (x : A) (ys : List A)
      → (if b then x ∷ [] else []) ++ ys ≡ (if b then x ∷ ys else ys)
  one_kept true x ys = refl
  one_kept false x ys = refl

  pub members-group_onto :
      (key : A → String) (j : String) (groups : List (String × List A)) (xs : List A)
      → members j (group_onto key groups xs) ≡ members j groups ++ keep (λ x. key x == j) xs
  unfolding group_onto
  members-group_onto key j groups [] = sym (append_nil (members j groups))
  members-group_onto key j groups (x ∷ xs) =
      members-group_onto key j (put_into (key x) x groups) xs
      ∙ ap (λ t. t ++ keep (λ y. key y == j) xs) (members-put_into (key x) j x groups)
      ∙ append_assoc (members j groups) (if key x == j then x ∷ [] else [])
          (keep (λ y. key y == j) xs)
      ∙ ap (λ t. members j groups ++ t) (one_kept (key x == j) x (keep (λ y. key y == j) xs))

-- The bills page shows under a session exactly that session's orders which are not cancelled, in their
-- order, and under a session with no such order nothing; the counter's rules hold under a group exactly
-- its toggles, in their order.
pub members-grouped :
    (k : String) (orders : List OrderOut) (toggles : List ToggleOut)
    → (members k (sessions orders)
        ≡ keep
            (λ o. o.session_id == k)
            (keep (λ o. not (same_status o.status OrderStatus.cancelled)) orders))
      × (members k (toggle_groups toggles) ≡ keep (λ t. t.group == k) toggles)
unfolding sessions toggle_groups
members-grouped k orders toggles = (
  members-group_onto _ k [] (keep (λ o. not (same_status o.status OrderStatus.cancelled)) orders),
  members-group_onto _ k [] toggles,
)
