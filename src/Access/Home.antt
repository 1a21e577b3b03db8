-- ===== src/Access/Home.antt =====
-- The page at "/": frontend/src/features/home/HomePage.tsx and, for the roles without a dashboard, the
-- cards of frontend/src/features/home/RoleHomePage.tsx.
use why_not_grace_pos.Prelude.{
  String, Bool, true, false, not, ◌&&◌, ◌||◌, ◌==◌, Option, some, List, [], ◌∷◌, ◌≡◌, refl, sym, ap,
  keep, every, is_set, Bool-cases, inl, inr,
}
use mathlib.Core.Path.{subst}
use why_not_grace_pos.Auth.{AuthStore}
use why_not_grace_pos.Access.{
  UserRole, owner, manager, cash_counter, service_counter, FeatureModule, UserOut, FeatureFlagOut,
  NavItem, nav_items, View, page, is_feature_enabled, is_visible, get_visible_nav_items, item_route,
  role_of, allows, same_role,
}
use why_not_grace_pos.Access.Guards.{visible_with, item_route_iff}

unfoldable pub shows_dashboard : Option UserRole → Bool
shows_dashboard (some owner) = true
shows_dashboard (some manager) = true
shows_dashboard _ = false

-- The quick links.
unfoldable pub home_items : Option UserRole → (FeatureModule → Bool) → List NavItem
home_items role enabled = keep (λ i. not (i.path == "/")) (get_visible_nav_items role enabled)

-- The paths that the role's live cards link to, once what they show is loaded.
unfoldable pub live_links : UserRole → List String
live_links cash_counter = "/shift" ∷ "/orders" ∷ "/billing" ∷ []
live_links service_counter = "/orders" ∷ "/tables" ∷ []
live_links UserRole.kitchen = "/kitchen" ∷ []
live_links UserRole.delivery = "/delivery" ∷ []
live_links _ = []

abbrev pub has_path : String → List NavItem → Bool
has_path p [] = false
has_path p (i ∷ is) = (i.path == p) || has_path p is

-- Each live card links to a page of the role's own sidebar, but for the delivery card where the
-- delivery feature is off.
pub live_links-visible :
    (role : UserRole) (enabled : FeatureModule → Bool)
    → every
        (λ p.
          has_path p (get_visible_nav_items (some role) enabled)
          || ((p == "/delivery") && not (enabled FeatureModule.delivery)))
        (live_links role)
      ≡ true
unfolding live_links get_visible_nav_items is_visible allows same_role
live_links-visible owner enabled = refl
live_links-visible manager enabled = refl
live_links-visible cash_counter enabled = refl
live_links-visible service_counter enabled = refl
live_links-visible UserRole.kitchen enabled = refl
live_links-visible UserRole.delivery enabled = elim (Bool-cases (enabled FeatureModule.delivery)) [
  | inl k ↦ rw (k) refl
  | inr k ↦ rw (k) refl
]

abbrev pub is_page : View → Bool
is_page page = true
is_page _ = false

every-keep {ℓ} :
    {A : Type ℓ} (p r q : A → Bool)
    → ((x : A) → p x ≡ true → q x ≡ true)
    → (xs : List A) → every q (keep r (keep p xs)) ≡ true
every-keep p r q h [] = refl
every-keep p r q h (x ∷ xs) = elim (Bool-cases (p x)) [
  | inl k ↦ elim (Bool-cases (r x)) [
    | inl l ↦ rw (k, l, h x k) (every-keep p r q h xs)
    | inr l ↦ rw (k, l) (every-keep p r q h xs)
  ]
  | inr k ↦ rw (k) (every-keep p r q h xs)
]

-- Once the session has been resumed and the flags are there, each quick link leads to its page.
pub home_items-page :
    (s : AuthStore UserOut) (flags : Option (List FeatureFlagOut)) (role : UserRole)
    → s.hydrated ≡ true
    → is_set s.access_token ≡ true
    → role_of s ≡ some role
    → every
        (λ i. is_page (item_route s (some flags) i))
        (home_items (some role) (is_feature_enabled flags))
      ≡ true
unfolding home_items get_visible_nav_items
home_items-page s flags role h t r =
    every-keep (is_visible role (is_feature_enabled flags)) (λ i. not (i.path == "/"))
      (λ i. is_page (item_route s (some flags) i))
      (λ i v. ap is_page (
        (item_route_iff s (some flags) i).1
          (h, t, subst (λ o. visible_with o (is_feature_enabled flags) i ≡ true) (sym r) v)))
      nav_items
