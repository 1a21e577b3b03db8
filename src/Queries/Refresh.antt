-- ===== src/Queries/Refresh.antt =====
-- The queries of frontend/src/features that the success of a mutation refreshes.
use why_not_grace_pos.Prelude.{
  append_assoc, String, false, Option, none, some, List, [], ◌∷◌, ◌++◌, ◌≡◌, ◌∙◌, ap, ◌⊎◌, inl, inr,
}
use why_not_grace_pos.Queries.Options.{Key, Effect, invalidate, write}
use why_not_grace_pos.Queries.Resources.{Root, whole, part, root_at, IsRoot, IsFound, root_at-query}
use why_not_grace_pos.Queries.Parents.{Below, segments, parents-above}
use why_not_grace_pos.Queries.Coverage.{Reaches, AnyReaches, Serves, served, IsAnswer, leaves_stale}
use why_not_grace_pos.Queries.Registry.{Query, Mutation, query_of, mutation_of}

-- An effect invalidates a prefix of the key, or writes the key's entry.
pub Renews : Effect → Key → Type 0
Renews (invalidate k) key = (rest : Key) × (key ≡ k ++ rest)
Renews (write k) key = key ≡ k

pub Refreshes : List Effect → Key → Type 0
unfolding Renews
Refreshes [] key = ⊥
Refreshes (e ∷ es) key = Renews e key ⊎ Refreshes es key

Reaches-Renews : (e : Effect) (r : Root) (key : Key) → IsRoot r key → Reaches e r → Renews e key
unfolding Reaches Renews IsRoot
Reaches-Renews (invalidate k) (whole l) key i (rest, h) = (rest, i ∙ h)
Reaches-Renews (invalidate k) (part l) key (more, i) (rest, h) =
    (rest ++ more, i ∙ ap (λ t. t ++ more) h ∙ append_assoc k rest more)
Reaches-Renews (write k) (whole l) key i h = i ∙ h
Reaches-Renews (write k) (part l) key i h = absurd h

AnyReaches-Refreshes :
    (es : List Effect) (r : Root) (key : Key) → IsRoot r key → AnyReaches es r → Refreshes es key
unfolding AnyReaches Refreshes
AnyReaches-Refreshes [] r key i h = absurd h
AnyReaches-Refreshes (e ∷ es) r key i (inl h) = inl (Reaches-Renews e r key i h)
AnyReaches-Refreshes (e ∷ es) r key i (inr h) = inr (AnyReaches-Refreshes es r key i h)

Serves-Refreshes :
    (es : List Effect) (o : Option Root) (key : Key)
    → IsFound o key
    → Serves es o
    → Refreshes es key
unfolding Serves IsFound
Serves-Refreshes es none key i h = absurd i
Serves-Refreshes es (some r) key i h = AnyReaches-Refreshes es r key i h

-- When a mutation's call goes to the resource that a query reads, to an item in it, to a part of it or
-- to an action on an item of it, then on success the mutation invalidates a prefix of the query's key
-- or writes the query's entry. A mutation of a bill is taken to answer with that bill, and two
-- mutations are left out: the sync of an integration's menu and the change of a business's website.
pub mutation_of-Refreshes :
    (m : Mutation) (q : Query) (answer : String) (b : Below)
    → IsAnswer m answer
    → leaves_stale m ≡ false
    → (mutation_of m).mutation_fn.path ≡ (query_of q).query_fn.path ++ segments b
    → Refreshes ((mutation_of m).on_success answer) ((query_of q).query_key)
mutation_of-Refreshes m q answer b a k e =
    let es : List Effect = (mutation_of m).on_success answer in
    Serves-Refreshes es (root_at ((query_of q).query_fn.path)) ((query_of q).query_key)
      (root_at-query q)
      (parents-above (λ p. Serves es (root_at p)) ((query_of q).query_fn.path)
        ((mutation_of m).mutation_fn.path) b e (served m answer a k))
