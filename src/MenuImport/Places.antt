-- ===== src/MenuImport/Places.antt =====
-- What stands at the places of a list that is changed by index.
use why_not_grace_pos.Prelude.{
  nat_eq, ltb, leb, ℕ, zero, suc, ◌+◌, true, ◌≡◌, refl, Option, none, some, List, [], ◌∷◌, ◌++◌,
  length, if◌then◌else◌, arith,
}
use why_not_grace_pos.MenuImport.{map_at, drop_at}

module _ {ℓ} {A : Type ℓ} where
  -- What stands at an index.
  abbrev pub at : ℕ → List A → Option A
  at i [] = none
  at zero (x ∷ xs) = some x
  at (suc i) (x ∷ xs) = at i xs

  -- What stands there, changed.
  abbrev pub changed : (A → A) → Option A → Option A
  changed f none = none
  changed f (some x) = some (f x)

  at-map_at :
      (i k j : ℕ) (f : A → A) (xs : List A)
      → at j (map_at i k f xs) ≡ (if nat_eq (i + j) k then changed f (at j xs) else at j xs)
  unfolding map_at
  at-map_at i k j f [] = ground arith
  at-map_at i k zero f (x ∷ xs) = ground arith
  at-map_at i k (suc j) f (x ∷ xs) = ground (arith, at-map_at (suc i) k j f xs)

  drop_at-past : (i k : ℕ) (xs : List A) → ltb k i ≡ true → drop_at i k xs ≡ xs
  unfolding drop_at
  drop_at-past i k [] h = refl
  drop_at-past i k (x ∷ xs) h = ground (arith, drop_at-past (suc i) k xs)

  at-drop_at :
      (i k j : ℕ) (xs : List A)
      → leb i k ≡ true
      → at j (drop_at i k xs) ≡ at (if ltb (i + j) k then j else suc j) xs
  unfolding drop_at
  at-drop_at i k j [] h = ground arith
  at-drop_at i k zero (x ∷ xs) h = ground (arith, drop_at-past (suc i) k xs)
  at-drop_at i k (suc j) (x ∷ xs) h =
      ground (arith, drop_at-past (suc i) k xs, at-drop_at (suc i) k j xs)

  pub at-map_first :
      (k j : ℕ) (f : A → A) (xs : List A)
      → at j (map_at 0 k f xs) ≡ (if nat_eq j k then changed f (at j xs) else at j xs)
  at-map_first k j f xs = ground (arith, at-map_at 0 k j f xs)

  pub at-drop_first :
      (k j : ℕ) (xs : List A) → at j (drop_at 0 k xs) ≡ at (if ltb j k then j else suc j) xs
  at-drop_first k j xs = ground (arith, at-drop_at 0 k j xs)

  pub at_end : (xs : List A) (j : ℕ) → nat_eq j (length xs) ≡ true → at j xs ≡ none
  at_end [] j h = refl
  at_end (x ∷ xs) zero h = ground arith
  at_end (x ∷ xs) (suc j) h = ground (arith, at_end xs j)

  pub at-append_one :
      (xs : List A) (x : A) (j : ℕ)
      → at j (xs ++ (x ∷ [])) ≡ (if nat_eq j (length xs) then some x else at j xs)
  at-append_one [] x zero = ground arith
  at-append_one [] x (suc j) = ground arith
  at-append_one (y ∷ xs) x zero = ground arith
  at-append_one (y ∷ xs) x (suc j) = ground (arith, at-append_one xs x j)
