-- ===== src/Charges/Ladders.antt =====
-- The ladders that the bands are shown in.
use Prim.Native.Char.{code}
use why_not_grace_pos.Prelude.{
  nat_eq, ◌+◌, String, Bool, true, false, not, ◌&&◌, ◌==◌, eq_iff, ◌≡◌, ◌↔◌, refl, sym, ap, ◌∙◌,
  inl, inr, List, [], ◌∷◌, map, keep, tally, All, Number, Bool-cases, text_append, if◌then◌else◌,
  arith,
}
use why_not_grace_pos.Grouping.{put_into, group_onto, members}
use why_not_grace_pos.Grouping.Members.{members-group_onto}
use why_not_grace_pos.Charges.Sorting.{
  le_0, IsAscending, tally-sort_by_min, sort_by_min-IsAscending,
}
use why_not_grace_pos.Charges.{
  ChargeBandCreate, ChargeBandOut, context_of, ladder_key, in_order, place, sort_by_min, ladders,
}

-- A text without the character that separates a key's two parts.
abbrev pub is_clear : String → Bool
is_clear String.[] = true
is_clear (String.◌∷◌ c s) = not (nat_eq (code c) 0) && is_clear s

before : String → String
before String.[] = String.[]
before (String.◌∷◌ c s) = if nat_eq (code c) 0 then String.[] else String.◌∷◌ c (before s)

after : String → String
after String.[] = String.[]
after (String.◌∷◌ c s) = if nat_eq (code c) 0 then s else after s

separated :
    (a s : String)
    → is_clear a ≡ true
    → (before (text_append a (text_append "\0" s)) ≡ a)
      × (after (text_append a (text_append "\0" s)) ≡ s)
unfolding before after text_append
separated String.[] s h = (refl, refl)
separated (String.◌∷◌ c a) s h = elim (Bool-cases (nat_eq (code c) 0)) [
  | inl e ↦ ground (arith)
  | inr e ↦
      rw (e) (
        ap (λ t. String.◌∷◌ c t) (separated a s (ground arith)).0,
        (separated a s (ground arith)).1,
      )
]

abbrev joined : String → String → String
joined a s = text_append a (text_append "\0" s)

joined-eq :
    (a b s t : String)
    → is_clear a ≡ true
    → is_clear b ≡ true
    → (joined a s ≡ joined b t) ↔ ((a ≡ b) × (s ≡ t))
joined-eq a b s t ha hb = (
  λ e. (
    sym (separated a s ha).0 ∙ ap before e ∙ (separated b t hb).0,
    sym (separated a s ha).1 ∙ ap after e ∙ (separated b t hb).1,
  ),
  λ e. ap (λ x. joined x s) e.0 ∙ ap (joined b) e.1,
)

-- Whether two bands are of one ladder: of one name and one context.
abbrev pub same_ladder {ℓ} : {N : Type ℓ} → ChargeBandOut N → ChargeBandOut N → Bool
same_ladder b c = (c.band.name == b.band.name) && (context_of c == context_of b)

ladder_key-same_ladder {ℓ} :
    {N : Type ℓ} (b c : ChargeBandOut N)
    → is_clear b.band.name ≡ true
    → is_clear c.band.name ≡ true
    → (ladder_key c == ladder_key b) ≡ same_ladder b c
unfolding ladder_key
ladder_key-same_ladder b c hb hc = ground (
  arith,
  joined-eq c.band.name b.band.name (context_of c) (context_of b) hc hb,
  eq_iff (ladder_key c) (ladder_key b),
  eq_iff c.band.name b.band.name,
  eq_iff (context_of c) (context_of b),
)

module _ {ℓ} {A : Type ℓ} where
  -- A sort of every entry sorts the members.
  members-map :
      (f : List A → List A) (k : String) (groups : List (String × List A))
      → f [] ≡ []
      → members k (map (λ e. (e.0, f e.1)) groups) ≡ f (members k groups)
  members-map f k [] h = sym h
  members-map f k ((l, xs) ∷ groups) h = elim (Bool-cases (l == k)) [
    | inl e ↦ rw (e) refl
    | inr e ↦ rw (e) (members-map f k groups h)
  ]

  abbrev pub IsFilled : List A → Type 0
  IsFilled [] = ⊥
  IsFilled (x ∷ xs) = Unit

  AllFilled : List (String × List A) → Type 0
  AllFilled groups = All (λ e. IsFilled e.1) groups

  put_into-AllFilled :
      (k : String) (x : A) (groups : List (String × List A))
      → AllFilled groups
      → AllFilled (put_into k x groups)
  unfolding put_into AllFilled
  put_into-AllFilled k x [] h = (_, _)
  put_into-AllFilled k x ((l, []) ∷ groups) (h, hs) = absurd h
  put_into-AllFilled k x ((l, y ∷ ys) ∷ groups) (h, hs) = elim (Bool-cases (l == k)) [
    | inl e ↦ rw (e) (_, hs)
    | inr e ↦ rw (e) (_, put_into-AllFilled k x groups hs)
  ]

  group_onto-AllFilled :
      (key : A → String) (groups : List (String × List A)) (xs : List A)
      → AllFilled groups
      → AllFilled (group_onto key groups xs)
  unfolding group_onto
  group_onto-AllFilled key groups [] h = h
  group_onto-AllFilled key groups (x ∷ xs) h =
      group_onto-AllFilled key (put_into (key x) x groups) xs
        (put_into-AllFilled (key x) x groups h)

  map-AllFilled :
      (f : List A → List A)
      → ((xs : List A) → IsFilled xs → IsFilled (f xs))
      → (groups : List (String × List A)) → AllFilled groups
      → AllFilled (map (λ e. (e.0, f e.1)) groups)
  unfolding AllFilled
  map-AllFilled f g [] h = _
  map-AllFilled f g ((k, xs) ∷ groups) (h, hs) = (g xs h, map-AllFilled f g groups hs)

module _ {ℓ} {N : Type ℓ} ⦃n : Number N⦄ where
  place-IsFilled : (b : ChargeBandOut N) (bs : List (ChargeBandOut N)) → IsFilled (place b bs)
  unfolding place
  place-IsFilled b [] = _
  place-IsFilled b (c ∷ bs) = elim (Bool-cases (in_order b c)) [
    | inl e ↦ rw (e) _
    | inr e ↦ rw (e) _
  ]

  sort_by_min-IsFilled : (bs : List (ChargeBandOut N)) → IsFilled bs → IsFilled (sort_by_min bs)
  unfolding sort_by_min
  sort_by_min-IsFilled [] h = h
  sort_by_min-IsFilled (b ∷ bs) h = place-IsFilled b (sort_by_min bs)

  tally-keep_ladder :
      (p : ChargeBandOut N → Bool) (b : ChargeBandOut N) (bs : List (ChargeBandOut N))
      → is_clear b.band.name ≡ true
      → All (λ c. is_clear (ChargeBandCreate.name (ChargeBandOut.band c)) ≡ true) bs
      → tally p (keep (λ c. ladder_key c == ladder_key b) bs)
        ≡ tally (λ c. same_ladder b c && p c) bs
  tally-keep_ladder p b [] hb hs = refl
  tally-keep_ladder p b (c ∷ bs) hb (h, hs) = elim (Bool-cases (same_ladder b c)) [
    | inl e ↦
        rw (ladder_key-same_ladder b c hb h, e)
          (ap (λ k. (if p c then 1 else 0) + k) (tally-keep_ladder p b bs hb hs))
    | inr e ↦
        rw (ladder_key-same_ladder b c hb h, e) (omega (arith, tally-keep_ladder p b bs hb hs))
  ]

  members-ladders :
      (k : String) (bands : List (ChargeBandOut N))
      → members k (ladders bands) ≡ sort_by_min (keep (λ c. ladder_key c == k) bands)
  unfolding ladders sort_by_min
  members-ladders k bands =
      members-map sort_by_min k (group_onto ladder_key [] bands) refl
      ∙ ap sort_by_min (members-group_onto ladder_key k [] bands)

  -- No ladder is empty, so the heading of one, which reads its first band, always has a band to read.
  -- And while no charge's name holds the separator: the ladder of a band holds exactly the bands of its
  -- name and context, each as often as it was loaded, whatever they are counted by, and by their lower
  -- bounds, in ascending order. The order of the bounds is taken to be total and transitive.
  pub ladders-tally :
      ((x y : N) → le_0 x y ≡ false → le_0 y x ≡ true)
      → ((x y z : N) → le_0 x y ≡ true → le_0 y z ≡ true → le_0 x z ≡ true)
      → (b : ChargeBandOut N) (bands : List (ChargeBandOut N)) (p : ChargeBandOut N → Bool)
      → is_clear b.band.name ≡ true
      → All (λ c. is_clear (ChargeBandCreate.name (ChargeBandOut.band c)) ≡ true) bands
      → All (λ e. IsFilled e.1) (ladders bands)
        × IsAscending (members (ladder_key b) (ladders bands))
        × (tally p (members (ladder_key b) (ladders bands))
            ≡ tally (λ c. same_ladder b c && p c) bands)
  unfolding ladders AllFilled
  ladders-tally total trans b bands p hb hs = rw (members-ladders (ladder_key b) bands) (
    map-AllFilled sort_by_min sort_by_min-IsFilled (group_onto ladder_key [] bands)
        (group_onto-AllFilled ladder_key [] bands _),
    sort_by_min-IsAscending total trans (keep (λ c. ladder_key c == ladder_key b) bands),
    tally-sort_by_min p (keep (λ c. ladder_key c == ladder_key b) bands)
        ∙ tally-keep_ladder p b bands hb hs,
  )
