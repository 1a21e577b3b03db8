-- ===== src/Customize/Selection.antt =====
-- What clicks on options do to the selection.
use why_not_grace_pos.Prelude.{
  ◌≤◌, String, Bool, true, false, not, ◌&&◌, ◌||◌, ◌≡◌, refl, ◌↔◌, ◌≢◌, none, some, List, [], ◌∷◌,
  ◌++◌, arith, ◌==◌, eq_iff, keep, find, sym, ap, ◌∙◌, inl, inr, Bool-cases, Option-cases, length,
  ◌⊎◌, is_set, if◌then◌else◌,
}
use text.Mathlib.TextPositions.{eq_refl}
use why_not_grace_pos.Menu.{MenuVariantOut, MenuOptionGroupOut}
use why_not_grace_pos.Customize.{
  has_id, Chosen, toggled, toggle_option, default_variant_id, missing_required_group, Dialog,
  can_add,
}

has_id-append :
    (p o : String) (xs : List String) → has_id p (xs ++ (o ∷ [])) ≡ (has_id p xs || o == p)
has_id-append p o [] = ground arith
has_id-append p o (x ∷ xs) = ground (arith, has_id-append p o xs)

has_id-keep :
    (p o : String) (xs : List String)
    → has_id p (keep (λ id. not (id == o)) xs) ≡ (if o == p then false else has_id p xs)
has_id-keep p o [] = ground arith
has_id-keep p o (x ∷ xs) = ground (arith, eq_iff o p, eq_iff x p, eq_iff x o, has_id-keep p o xs)

has_id-toggled :
    (multiple : Bool) (p o : String) (xs : List String)
    → has_id p (toggled multiple o xs)
      ≡ (if multiple then (if o == p then not (has_id o xs) else has_id p xs) else o == p)
unfolding toggled
has_id-toggled false p o xs = ground arith
has_id-toggled true p o xs = ground (arith, eq_iff o p, has_id-append p o xs, has_id-keep p o xs)

-- After a click on an option, in its own group: where several may be chosen, that option is chosen
-- exactly if it was not, and the others are as before; where one may be, it alone is chosen. Other
-- groups are as before.
pub has_id-toggle_option :
    (k g o p : String) (multiple : Bool) (chosen : Chosen)
    → has_id p (toggle_option g o multiple chosen k) ≡ (
        if k == g
        then (if multiple
            then (if o == p then not (has_id o (chosen g)) else has_id p (chosen g))
            else o == p)
        else has_id p (chosen k))
unfolding toggle_option
has_id-toggle_option k g o p multiple chosen =
    ground (arith, has_id-toggled multiple p o (chosen g))

-- Clicks, each a group and an option of it.
abbrev pub clicks : (String → Bool) → List (String × String) → Chosen → Chosen
clicks multiple [] chosen = chosen
clicks multiple ((g, o) ∷ rest) chosen =
    clicks multiple rest (toggle_option g o (multiple g) chosen)

length-toggle_option :
    (multiple : String → Bool) (k g o : String) (chosen : Chosen)
    → multiple k ≡ false
    → length (chosen k) ≤ 1
    → length (toggle_option g o (multiple g) chosen k) ≤ 1
unfolding toggle_option toggled
length-toggle_option multiple k g o chosen single h = elim (Bool-cases (k == g)) [
  | inl e ↦
      let same : k ≡ g = (eq_iff k g).0 e in
      rw (toggle_option, e, sym (ap multiple same) ∙ single, toggled) (omega arith)
  | inr e ↦ rw (toggle_option, e) h
]

clicks_single :
    (multiple : String → Bool) (cs : List (String × String)) (chosen : Chosen) (k : String)
    → multiple k ≡ false
    → length (chosen k) ≤ 1
    → length (clicks multiple cs chosen k) ≤ 1
clicks_single multiple [] chosen k single h = h
clicks_single multiple ((g, o) ∷ cs) chosen k single h =
    clicks_single multiple cs (toggle_option g o (multiple g) chosen) k single
      (length-toggle_option multiple k g o chosen single h)

-- However the options are clicked, a group of alternatives never has more than one option chosen.
pub length-clicks_le :
    (multiple : String → Bool) (cs : List (String × String)) (k : String)
    → multiple k ≡ false
    → length (clicks multiple cs (λ _. []) k) ≤ 1
length-clicks_le multiple cs k single = clicks_single multiple cs (λ _. []) k single (omega arith)

module _ {ℓ} {N : Type ℓ} where
  -- Every group that must be chosen from has an option chosen.
  abbrev pub AllChosen : Chosen → List (MenuOptionGroupOut N) → Type 0
  AllChosen chosen [] = Unit
  AllChosen chosen (g ∷ gs) = (g.is_required ≡ true → chosen g.id ≢ []) × AllChosen chosen gs

  missing_iff :
      (chosen : Chosen) (gs : List (MenuOptionGroupOut N))
      → (missing_required_group chosen gs ≡ none) ↔ AllChosen chosen gs
  unfolding missing_required_group
  missing_iff chosen [] = ground arith
  missing_iff chosen (g ∷ gs) = ground (arith, missing_iff chosen gs)

  -- The item can be added exactly when it has no variants or one is set, and every group that is
  -- required has an option chosen.
  pub can_add_iff :
      (d : Dialog N)
      → (can_add d ≡ true) ↔ (
          ((d.item.variants ≡ []) ⊎ (is_set d.variant_id ≡ true))
          × AllChosen d.chosen d.item.option_groups)
  unfolding can_add
  can_add_iff d = ground (arith, missing_iff d.chosen d.item.option_groups)

  -- Some variant with the id is active.
  abbrev pub offers : String → List (MenuVariantOut N) → Bool
  offers id [] = false
  offers id (v ∷ vs) = (v.is_active && v.id == id) || offers id vs

  default_offers :
      (vs : List (MenuVariantOut N)) (v : MenuVariantOut N)
      → find (λ w. w.is_default && w.is_active) vs ≡ some v
      → offers v.id vs ≡ true
  default_offers [] v h = cc
  default_offers (w ∷ vs) v h = ground (arith, eq_refl v.id, default_offers vs v)

  active_offers :
      (vs : List (MenuVariantOut N)) (v : MenuVariantOut N)
      → find (λ w. w.is_active) vs ≡ some v
      → offers v.id vs ≡ true
  active_offers [] v h = cc
  active_offers (w ∷ vs) v h = ground (arith, eq_refl v.id, active_offers vs v)

  -- The variant that an item opens with is one of its active variants.
  pub default_variant_id-offers :
      (vs : List (MenuVariantOut N)) (id : String)
      → default_variant_id vs ≡ some id
      → offers id vs ≡ true
  unfolding default_variant_id
  default_variant_id-offers vs id h =
      elim (Option-cases (find (λ w. w.is_default && w.is_active) vs)) [
        | inr (v, e) ↦ ground (arith, default_offers vs v e)
        | inl e ↦ elim (Option-cases (find (λ w. w.is_active) vs)) [
          | inr (v, f) ↦ ground (arith, active_offers vs v f)
          | inl f ↦ ground arith
        ]
      ]

  no_active :
      (vs : List (MenuVariantOut N)) (id : String)
      → find (λ w. w.is_active) vs ≡ none
      → offers id vs ≡ false
  no_active [] id h = refl
  no_active (w ∷ vs) id h = ground (arith, no_active vs id)

  -- An item opens with no variant only if none of its variants is active.
  pub default_variant_id-none :
      (vs : List (MenuVariantOut N)) (id : String)
      → default_variant_id vs ≡ none
      → offers id vs ≡ false
  unfolding default_variant_id
  default_variant_id-none vs id h = elim (Option-cases (find (λ w. w.is_active) vs)) [
    | inr (v, f) ↦ ground arith
    | inl f ↦ no_active vs id f
  ]
