-- ===== src/Cart/Lines.antt =====
-- The lines of a cart as a map from ids to lines, and the invariant of the cart.
use why_not_grace_pos.Prelude.{
  String, Bool, true, false, not, ◌&&◌, ◌||◌, ◌≡◌, refl, Option, none, some, List, [], ◌∷◌, map,
  arith, ◌==◌, eq_iff, find, every, every-append, Number, if◌then◌else◌,
}
use mathlib.Core.Option
use why_not_grace_pos.Cart.{CartLine, LineBody, add_line, remove_line, with_quantity, set_quantity}

module _ {ℓ} {N : Type ℓ} where
  abbrev pub line_of : String → List (CartLine N) → Option (CartLine N)
  line_of id = find (λ l. l.id == id)

  line_of-add_line :
      (j uuid : String) (body : LineBody N) (ls : List (CartLine N))
      → line_of j (add_line uuid body ls) ≡ elim (line_of j ls) [
        | none ↦ if uuid == j then some (record { id = uuid; body = body }) else none
        | some l ↦ some l
      ]
  unfolding add_line
  line_of-add_line j uuid body [] = ground arith
  line_of-add_line j uuid body (l ∷ ls) = ground (arith, line_of-add_line j uuid body ls)

  line_of-remove_line :
      (j id : String) (ls : List (CartLine N))
      → line_of j (remove_line id ls) ≡ (if id == j then none else line_of j ls)
  unfolding remove_line
  line_of-remove_line j id [] = ground arith
  line_of-remove_line j id (l ∷ ls) =
      ground (arith, eq_iff id j, eq_iff l.id j, eq_iff l.id id, line_of-remove_line j id ls)

  line_of-with_quantity :
      (j id : String) (q : N) (ls : List (CartLine N))
      → line_of j (map (λ l. if l.id == id then with_quantity q l else l) ls)
        ≡ (if id == j then Option.map (with_quantity q) (line_of j ls) else line_of j ls)
  line_of-with_quantity j id q [] = ground arith
  line_of-with_quantity j id q (l ∷ ls) =
      ground (arith, eq_iff id j, eq_iff l.id j, eq_iff l.id id, line_of-with_quantity j id q ls)

module _ {ℓ} {N : Type ℓ} ⦃n : Number N⦄ where
  -- What `setQuantity` does, read by ids: at the id itself the line is gone if the quantity is zero
  -- or less, and else is the old line, if there was one, with the new quantity and nothing else
  -- changed; at any other id the line is the one of before.
  pub line_of-set_quantity :
      (j id : String) (q : N) (ls : List (CartLine N))
      → line_of j (set_quantity id q ls) ≡ (
          if id == j
          then (if n.le q (n.of_ℕ 0) then none else Option.map (with_quantity q) (line_of j ls))
          else line_of j ls)
  unfolding set_quantity
  line_of-set_quantity j id q ls =
      ground (arith, line_of-remove_line j id ls, line_of-with_quantity j id q ls)

-- An action of the store on its lines; `adds` gives the new line's id.
pub data LineAction {ℓ} (N : Type ℓ) : Type ℓ where
  adds : String → LineBody N → LineAction N
  sets : String → N → LineAction N
  removes : String → LineAction N
  clears : LineAction N

module _ {ℓ} {N : Type ℓ} where
  abbrev pub has_line : String → List (CartLine N) → Bool
  has_line id [] = false
  has_line id (l ∷ ls) = l.id == id || has_line id ls

  abbrev pub distinct : List (CartLine N) → Bool
  distinct [] = true
  distinct (l ∷ ls) = not (has_line l.id ls) && distinct ls

  has_line-add_line :
      (j uuid : String) (body : LineBody N) (ls : List (CartLine N))
      → has_line j (add_line uuid body ls) ≡ (has_line j ls || uuid == j)
  unfolding add_line
  has_line-add_line j uuid body [] = ground arith
  has_line-add_line j uuid body (l ∷ ls) = ground (arith, has_line-add_line j uuid body ls)

  distinct-add_line :
      (uuid : String) (body : LineBody N) (ls : List (CartLine N))
      → has_line uuid ls ≡ false
      → distinct ls ≡ true
      → distinct (add_line uuid body ls) ≡ true
  unfolding add_line
  distinct-add_line uuid body [] f d = ground arith
  distinct-add_line uuid body (l ∷ ls) f d = ground (
    arith,
    eq_iff l.id uuid,
    eq_iff uuid l.id,
    has_line-add_line l.id uuid body ls,
    distinct-add_line uuid body ls,
  )

  has_line-remove_line :
      (j id : String) (ls : List (CartLine N))
      → has_line j ls ≡ false
      → has_line j (remove_line id ls) ≡ false
  unfolding remove_line
  has_line-remove_line j id [] h = refl
  has_line-remove_line j id (l ∷ ls) h = ground (arith, has_line-remove_line j id ls)

  distinct-remove_line :
      (id : String) (ls : List (CartLine N))
      → distinct ls ≡ true
      → distinct (remove_line id ls) ≡ true
  unfolding remove_line
  distinct-remove_line id [] d = refl
  distinct-remove_line id (l ∷ ls) d =
      ground (arith, has_line-remove_line l.id id ls, distinct-remove_line id ls)

  has_line-with_quantity :
      (j id : String) (q : N) (ls : List (CartLine N))
      → has_line j (map (λ l. if l.id == id then with_quantity q l else l) ls) ≡ has_line j ls
  has_line-with_quantity j id q [] = refl
  has_line-with_quantity j id q (l ∷ ls) = ground (arith, has_line-with_quantity j id q ls)

  distinct-with_quantity :
      (id : String) (q : N) (ls : List (CartLine N))
      → distinct (map (λ l. if l.id == id then with_quantity q l else l) ls) ≡ distinct ls
  distinct-with_quantity id q [] = refl
  distinct-with_quantity id q (l ∷ ls) =
      ground (arith, has_line-with_quantity l.id id q ls, distinct-with_quantity id q ls)

module _ {ℓ} {N : Type ℓ} ⦃n : Number N⦄ where
  unfoldable pub act : LineAction N → List (CartLine N) → List (CartLine N)
  unfolding add_line set_quantity remove_line
  act (adds uuid body) ls = add_line uuid body ls
  act (sets id q) ls = set_quantity id q ls
  act (removes id) ls = remove_line id ls
  act clears ls = []

  abbrev pub act_all : List (LineAction N) → List (CartLine N) → List (CartLine N)
  act_all [] ls = ls
  act_all (a ∷ acts) ls = act_all acts (act a ls)

  -- The quantity of a line is above zero.
  abbrev pub is_positive : CartLine N → Bool
  is_positive l = not (n.le l.quantity (n.of_ℕ 0))

  -- No two lines share an id, and every line counts.
  abbrev pub IsCart : List (CartLine N) → Type 0
  IsCart ls = (distinct ls ≡ true) × (every is_positive ls ≡ true)

  -- What the callers of `addLine` keep to: the id is a fresh one, and the dialog's quantity is
  -- above zero.
  abbrev pub Allowed : LineAction N → List (CartLine N) → Type 0
  Allowed (adds uuid body) ls = (has_line uuid ls ≡ false) × (n.le body.quantity (n.of_ℕ 0) ≡ false)
  Allowed _ ls = Unit

  abbrev pub AllAllowed : List (LineAction N) → List (CartLine N) → Type 0
  AllAllowed [] ls = Unit
  AllAllowed (a ∷ acts) ls = Allowed a ls × AllAllowed acts (act a ls)

  every-remove_line :
      (id : String) (ls : List (CartLine N))
      → every is_positive ls ≡ true
      → every is_positive (remove_line id ls) ≡ true
  unfolding remove_line
  every-remove_line id [] h = refl
  every-remove_line id (l ∷ ls) h = ground (arith, every-remove_line id ls)

  every-with_quantity :
      (id : String) (q : N) (ls : List (CartLine N))
      → n.le q (n.of_ℕ 0) ≡ false
      → every is_positive ls ≡ true
      → every is_positive (map (λ l. if l.id == id then with_quantity q l else l) ls) ≡ true
  every-with_quantity id q [] p h = refl
  every-with_quantity id q (l ∷ ls) p h = ground (arith, every-with_quantity id q ls)

  act-IsCart :
      (a : LineAction N) (ls : List (CartLine N)) → Allowed a ls → IsCart ls → IsCart (act a ls)
  unfolding act
  act-IsCart (adds uuid body) ls ok v = ground (
    arith,
    distinct-add_line uuid body ls,
    every-append is_positive ls (record { id = uuid; body = body } ∷ []),
  )
  act-IsCart (sets id q) ls ok v = ground (
    arith,
    distinct-remove_line id ls,
    every-remove_line id ls,
    distinct-with_quantity id q ls,
    every-with_quantity id q ls,
  )
  act-IsCart (removes id) ls ok v =
      ground (arith, distinct-remove_line id ls, every-remove_line id ls)
  act-IsCart clears ls ok v = ground arith

  act_all-IsCart_from :
      (acts : List (LineAction N)) (ls : List (CartLine N))
      → AllAllowed acts ls
      → IsCart ls
      → IsCart (act_all acts ls)
  act_all-IsCart_from [] ls ok v = v
  act_all-IsCart_from (a ∷ acts) ls (ok, oks) v =
      act_all-IsCart_from acts (act a ls) oks (act-IsCart a ls ok v)

  -- Whatever is done to an empty cart in turn, with fresh ids and with dialogs that give a quantity
  -- above zero, and with any quantity at all set afterwards: no two of its lines ever share an id,
  -- and no line with a quantity of zero or less is ever in it.
  pub act_all-IsCart : (acts : List (LineAction N)) → AllAllowed acts [] → IsCart (act_all acts [])
  act_all-IsCart acts ok = act_all-IsCart_from acts [] ok (refl, refl)
