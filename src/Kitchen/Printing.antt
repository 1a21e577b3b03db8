-- ===== src/Kitchen/Printing.antt =====
-- One ticket for each station.
use why_not_grace_pos.Prelude.{
  ℕ, String, Bool, true, false, ◌≡◌, refl, none, some, List, [], ◌∷◌, ◌++◌, map, arith, every,
  length,
}
use why_not_grace_pos.Kitchen.{targets_of, ticket, print_each, print_kot_for_all_stations}

print_each_works :
    (works : String → Bool) (k : String) (total : ℕ) (ss : List String)
    → every works ss ≡ true
    → (print_each works k total ss).requests ≡ map (ticket k) ss
      × ((print_each works k total ss).result ≡ some total)
unfolding print_each
print_each_works works k total [] h = (refl, refl)
print_each_works works k total (s ∷ ss) h = ground (arith, print_each_works works k total ss)

print_each_fails :
    (works : String → Bool) (k : String) (total : ℕ) (before : List String) (s : String)
    (after : List String)
    → every works before ≡ true
    → works s ≡ false
    → ((print_each works k total (before ++ (s ∷ after))).requests
        ≡ map (ticket k) (before ++ (s ∷ [])))
      × ((print_each works k total (before ++ (s ∷ after))).result ≡ none)
unfolding print_each
print_each_fails works k total [] s after h f = ground arith
print_each_fails works k total (b ∷ before) s after h f =
    ground (arith, print_each_fails works k total before s after)

-- If every ticket is answered and printed, one ticket was asked for each station, in their order,
-- and the number of stations is the result; a business with no stations gets one ticket that names
-- none, and the result one.
pub print_all_works :
    (works : String → Bool) (k : String) (stations : List String)
    → every works (targets_of stations) ≡ true
    → let r = print_kot_for_all_stations works k (some stations) in
      (r.requests ≡ map (ticket k) (targets_of stations))
      × (r.result ≡ some (length (targets_of stations)))
unfolding print_kot_for_all_stations
print_all_works works k stations h =
    print_each_works works k (length (targets_of stations)) (targets_of stations) h

-- If a station's ticket fails, the stations before it have had theirs, those behind it get none,
-- and the whole call fails.
pub print_all_fails :
    (works : String → Bool) (k : String) (before : List String) (s : String) (after : List String)
    → every works before ≡ true
    → works s ≡ false
    → let r = print_kot_for_all_stations works k (some (before ++ (s ∷ after))) in
      (r.requests ≡ map (ticket k) (before ++ (s ∷ []))) × (r.result ≡ none)
unfolding print_kot_for_all_stations
print_all_fails works k [] s after h f =
    print_each_fails works k (length (s ∷ after)) [] s after h f
print_all_fails works k (b ∷ before) s after h f =
    print_each_fails works k (length (b ∷ (before ++ (s ∷ after)))) (b ∷ before) s after h f
