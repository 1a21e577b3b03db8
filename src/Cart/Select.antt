-- ===== src/Cart/Select.antt =====
-- Tapping a dish that has neither variants nor options: the rest of handleSelectItem in
-- frontend/src/features/pos/PosPage.tsx and frontend/src/features/qr/QrOrderingPage.tsx.
use why_not_grace_pos.Prelude.{
  ◌≤◌, String, Bool, true, false, not, ◌&&◌, ◌≡◌, refl, none, some, Option-cases, List, [], ◌∷◌,
  map, arith, ◌==◌, eq_iff, inl, inr, find, every, tally, tally-append, is_set, Number,
  if◌then◌else◌,
}
use why_not_grace_pos.Cart.{CartLine, LineBody, add_line, with_quantity, set_quantity}
use why_not_grace_pos.Cart.Lines.{is_positive}

module _ {ℓ} {N : Type ℓ} where
  abbrev pub has_options : CartLine N → Bool
  has_options l = elim l.options [ [] ↦ false | o ∷ os ↦ true ]

  -- The test for a line of the dish as it comes.
  unfoldable pub is_plain : String → CartLine N → Bool
  is_plain item_id l =
      l.menu_item_id == item_id
      && not (is_set l.variant_id)
      && not (has_options l)
      && not (is_set l.special_instructions)

  -- The line that a simple dish starts with; its quantity is one.
  abbrev pub plain_body : String → String → Bool → N → N → LineBody N
  plain_body id name is_veg price one = record {
    menu_item_id = id;
    item_name = name;
    is_veg = is_veg;
    unit_estimate = price;
    variant_id = none;
    variant_name = none;
    options = [];
    quantity = one;
    special_instructions = none;
  }

module _ {ℓ} {N : Type ℓ} ⦃n : Number N⦄ where
  unfoldable pub select_simple :
      String → String → String → Bool → N → List (CartLine N) → List (CartLine N)
  unfolding is_plain add_line set_quantity
  select_simple uuid id name is_veg price lines = elim (find (is_plain id) lines) [
    | none ↦ add_line uuid (plain_body id name is_veg price (n.of_ℕ 1)) lines
    | some l ↦ set_quantity l.id (n.add l.quantity (n.of_ℕ 1)) lines
  ]

module _ {ℓ} {N : Type ℓ} where
  tally-find-none :
      (p : CartLine N → Bool) (ls : List (CartLine N)) → find p ls ≡ none → tally p ls ≡ 0
  tally-find-none p [] h = refl
  tally-find-none p (l ∷ ls) h = ground (arith, tally-find-none p ls)

  tally-find-some :
      (p : CartLine N → Bool) (ls : List (CartLine N)) (found : CartLine N)
      → find p ls ≡ some found
      → 1 ≤ tally p ls
  tally-find-some p [] found h = ground arith
  tally-find-some p (l ∷ ls) found h = ground (arith, tally-find-some p ls found)

  every-find :
      (q p : CartLine N → Bool) (ls : List (CartLine N)) (found : CartLine N)
      → every q ls ≡ true
      → find p ls ≡ some found
      → q found ≡ true
  every-find q p [] found all h = ground arith
  every-find q p (l ∷ ls) found all h = ground (arith, every-find q p ls found)

  tally-with_quantity :
      (item_id id : String) (q : N) (ls : List (CartLine N))
      → tally (is_plain item_id) (map (λ l. if l.id == id then with_quantity q l else l) ls)
        ≡ tally (is_plain item_id) ls
  unfolding is_plain
  tally-with_quantity item_id id q [] = refl
  tally-with_quantity item_id id q (l ∷ ls) = ground (arith, tally-with_quantity item_id id q ls)

module _ {ℓ} {N : Type ℓ} ⦃n : Number N⦄ where
  tally-add_plain :
      (uuid id name : String) (is_veg : Bool) (price : N) (ls : List (CartLine N))
      → tally (is_plain id) ls ≡ 0
      → tally (is_plain id) (add_line uuid (plain_body id name is_veg price (n.of_ℕ 1)) ls) ≡ 1
  unfolding is_plain add_line
  tally-add_plain uuid id name is_veg price ls h = ground (
    arith,
    eq_iff id id,
    tally-append (is_plain id) ls
        (record { id = uuid; body = plain_body id name is_veg price (n.of_ℕ 1) } ∷ []),
  )

  tally-raise_plain :
      (id : String) (found : CartLine N) (ls : List (CartLine N))
      → ((q : N) → n.le q (n.of_ℕ 0) ≡ false → n.le (n.add q (n.of_ℕ 1)) (n.of_ℕ 0) ≡ false)
      → is_positive found ≡ true
      → tally (is_plain id) (set_quantity found.id (n.add found.quantity (n.of_ℕ 1)) ls)
        ≡ tally (is_plain id) ls
  unfolding set_quantity
  tally-raise_plain id found ls more positive =
      rw (more found.quantity (ground arith))
        (tally-with_quantity id found.id (n.add found.quantity (n.of_ℕ 1)) ls)

  -- Tapping a simple dish, however often, makes one line of it: if the cart has at most one plain
  -- line of the dish, it has exactly one afterwards. The quantities in the cart are above zero, and
  -- so is each of them with one more.
  pub tally-select_simple :
      (uuid id name : String) (is_veg : Bool) (price : N) (ls : List (CartLine N))
      → ((q : N) → n.le q (n.of_ℕ 0) ≡ false → n.le (n.add q (n.of_ℕ 1)) (n.of_ℕ 0) ≡ false)
      → every is_positive ls ≡ true
      → tally (is_plain id) ls ≤ 1
      → tally (is_plain id) (select_simple uuid id name is_veg price ls) ≡ 1
  unfolding select_simple
  tally-select_simple uuid id name is_veg price ls more positive h =
      elim (Option-cases (find (is_plain id) ls)) [
        | inl e ↦
            rw (e, select_simple)
              (tally-add_plain uuid id name is_veg price ls (tally-find-none (is_plain id) ls e))
        | inr (l, e) ↦
            rw (e, select_simple)
              (omega (
                arith,
                tally-raise_plain id l ls more
                    (every-find is_positive (is_plain id) ls l positive e),
                tally-find-some (is_plain id) ls l e,
              ))
      ]
