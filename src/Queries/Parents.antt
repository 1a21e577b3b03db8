-- ===== src/Queries/Parents.antt =====
-- The resources that a path of the backend stands directly below.
use why_not_grace_pos.Prelude.{
  append_assoc, append_nil, Option, none, some, String, List, [], ◌∷◌, ◌++◌, ◌≡◌, refl, sym, ap,
  ◌∙◌, All,
}
use mathlib.Core.Path.{subst}
use why_not_grace_pos.Api.Calls.{Segment, word, slot}

-- The last segment of a path and what is before it.
put_first : Segment → Option (List Segment × Segment) → Option (List Segment × Segment)
put_first s none = some ([], s)
put_first s (some (p, t)) = some (s ∷ p, t)

split_last : List Segment → Option (List Segment × Segment)
unfolding put_first
split_last [] = none
split_last (s ∷ p) = put_first s (split_last p)

above_item : Option (List Segment × Segment) → List (List Segment)
above_item (some (p, slot id)) = p ∷ []
above_item _ = []

above : Option (List Segment × Segment) → List (List Segment)
unfolding split_last above_item
above none = []
above (some (p, slot id)) = p ∷ []
above (some (p, word w)) = p ∷ above_item (split_last p)

-- The path itself, the path without its last segment, and a collection above an action on its item.
unfoldable pub parents : List Segment → List (List Segment)
unfolding split_last above
parents p = p ∷ above (split_last p)

-- A path is that of a resource, of an item in it, of a part of it, or of an action on an item.
pub data Below : Type 0 where
  itself : Below
  item : Option String → Below
  section : String → Below
  action : Option String → String → Below

abbrev pub segments : Below → List Segment
segments itself = []
segments (item id) = slot id ∷ []
segments (section w) = word w ∷ []
segments (action id w) = slot id ∷ word w ∷ []

split_last-append : (p : List Segment) (s : Segment) → split_last (p ++ s ∷ []) ≡ some (p, s)
unfolding split_last put_first
split_last-append [] s = refl
split_last-append (t ∷ p) s = ap (put_first t) (split_last-append p s)

parents-item :
    (p : List Segment) (id : Option String)
    → parents (p ++ slot id ∷ []) ≡ (p ++ slot id ∷ []) ∷ p ∷ []
unfolding parents above
parents-item p id = rw (split_last-append p (slot id)) refl

parents-section :
    (p : List Segment) (w : String)
    → parents (p ++ word w ∷ []) ≡ (p ++ word w ∷ []) ∷ p ∷ above_item (split_last p)
unfolding parents above
parents-section p w = rw (split_last-append p (word w)) refl

parents-action :
    (p : List Segment) (id : Option String) (w : String)
    → parents (p ++ slot id ∷ word w ∷ [])
      ≡ (p ++ slot id ∷ word w ∷ []) ∷ (p ++ slot id ∷ []) ∷ p ∷ []
unfolding above_item
parents-action p id w =
    rw
      (
        sym (append_assoc p (slot id ∷ []) (word w ∷ [])),
        parents-section (p ++ slot id ∷ []) w,
        split_last-append p (slot id),
      )
      refl

-- What holds of all the parents holds of each path that this one stands directly below.
pub parents-above :
    (P : List Segment → Type 0) (p q : List Segment) (b : Below)
    → q ≡ p ++ segments b
    → All P (parents q)
    → P p
unfolding parents
parents-above P p q itself e h = subst P (e ∙ append_nil p) h.0
parents-above P p q (item id) e h = (subst (All P) (ap parents e ∙ parents-item p id) h).1.0
parents-above P p q (section w) e h = (subst (All P) (ap parents e ∙ parents-section p w) h).1.0
parents-above P p q (action id w) e h =
    (subst (All P) (ap parents e ∙ parents-action p id w) h).1.1.0
