-- ===== src/Cart/Subtotal.antt =====
-- The estimated subtotal that the cart shows while its lines change.
use why_not_grace_pos.Prelude.{
  String, true, false, ◌≡◌, refl, ap, ◌∙◌, sym, some, List, [], ◌∷◌, ◌++◌, arith, inl, inr,
  Bool-cases, ◌==◌, eq_iff, Number, IsExact,
}
use mathlib.Core.List.{foldl}
use why_not_grace_pos.Cart.{
  CartLine, LineBody, add_line, remove_line, line_estimate, cart_estimated_subtotal,
}
use why_not_grace_pos.Cart.Lines.{line_of, has_line, distinct}

module _ {ℓ} {N : Type ℓ} ⦃n : Number N⦄ where
  foldl-append :
      (f : N → CartLine N → N) (a : N) (ls ms : List (CartLine N))
      → foldl f a (ls ++ ms) ≡ foldl f (foldl f a ls) ms
  foldl-append f a [] ms = refl
  foldl-append f a (l ∷ ls) ms = foldl-append f (f a l) ls ms

  -- Adding a line adds that line's estimate to the subtotal, as the very same sum of numbers:
  -- with doubles too, with no rounding of its own.
  pub subtotal-add_line :
      (uuid : String) (body : LineBody N) (ls : List (CartLine N))
      → cart_estimated_subtotal (add_line uuid body ls)
        ≡ n.add (cart_estimated_subtotal ls) (line_estimate (record { id = uuid; body = body }))
  unfolding cart_estimated_subtotal add_line
  subtotal-add_line uuid body ls = foldl-append _ _ ls _

  abbrev add_estimate : N → CartLine N → N
  add_estimate sum l = n.add sum (line_estimate l)

  -- A removal of an id that no line has.
  remove_line_absent :
      (id : String) (ls : List (CartLine N)) → has_line id ls ≡ false → remove_line id ls ≡ ls
  unfolding remove_line
  remove_line_absent id [] h = refl
  remove_line_absent id (l ∷ ls) h = ground (arith, remove_line_absent id ls)

  module _ (laws : IsExact N) where
    add_right_comm : (a b c : N) → n.add (n.add a b) c ≡ n.add (n.add a c) b
    add_right_comm a b c =
        laws.add_assoc a b c ∙ ap (n.add a) (laws.add_comm b c) ∙ sym (laws.add_assoc a c b)

    foldl-add_right :
        (a b : N) (ls : List (CartLine N))
        → foldl add_estimate (n.add a b) ls ≡ n.add (foldl add_estimate a ls) b
    foldl-add_right a b [] = refl
    foldl-add_right a b (l ∷ ls) =
        ap (λ s. foldl add_estimate s ls) (add_right_comm a b (line_estimate l))
        ∙ foldl-add_right (add_estimate a l) b ls

    foldl-remove_line :
        (id : String) (a : N) (ls : List (CartLine N)) (l : CartLine N)
        → distinct ls ≡ true
        → line_of id ls ≡ some l
        → foldl add_estimate a ls
          ≡ n.add (foldl add_estimate a (remove_line id ls)) (line_estimate l)
    unfolding remove_line
    foldl-remove_line id a [] l d h = cc
    foldl-remove_line id a (m ∷ ls) l d h = elim (Bool-cases (m.id == id)) [
      | inl e ↦
          ground (
            arith,
            eq_iff m.id id,
            remove_line_absent id ls,
            foldl-add_right a (line_estimate m) ls,
          )
      | inr e ↦ ground (arith, foldl-remove_line id (add_estimate a m) ls l)
    ]

    -- Where sums are exact, removing a line takes exactly that line's estimate off the subtotal,
    -- wherever in the cart it stands, if no two lines share an id.
    pub subtotal-remove_line :
        (id : String) (ls : List (CartLine N)) (l : CartLine N)
        → distinct ls ≡ true
        → line_of id ls ≡ some l
        → cart_estimated_subtotal ls
          ≡ n.add (cart_estimated_subtotal (remove_line id ls)) (line_estimate l)
    unfolding cart_estimated_subtotal
    subtotal-remove_line id ls l d h = foldl-remove_line id (n.of_ℕ 0) ls l d h
