-- ===== src/Access/Guards.antt =====
-- The route guards and the sidebar agree, and both fail closed.
use why_not_grace_pos.Prelude.{
  ◌||◌, not, List, [], ◌∷◌, refl, every, Bool, true, false, Option, none, some, List, ◌≡◌, ◌↔◌,
  arith, is_set, keep,
}
use why_not_grace_pos.Auth.{AuthStore}
use why_not_grace_pos.Access.{
  nav_items, UserRole, owner, manager, FeatureModule, UserOut, FeatureFlagOut, NavItem, allows,
  is_feature_enabled, is_visible, get_visible_nav_items, page, role_of, item_route,
}

-- The query's data: none while it loads.
abbrev pub loaded : Option (Option (List FeatureFlagOut)) → Option (List FeatureFlagOut)
loaded none = none
loaded (some flags) = flags

abbrev pub visible_with : Option UserRole → (FeatureModule → Bool) → NavItem → Bool
visible_with none enabled i = false
visible_with (some role) enabled i = is_visible role enabled i

-- A route of the app shows its page exactly when the session has been resumed, an access token is
-- held, and the sidebar would list the item for the user's role and the flags loaded so far.
pub item_route_iff :
    (s : AuthStore UserOut) (flags : Option (Option (List FeatureFlagOut))) (i : NavItem)
    → (item_route s flags i ≡ page) ↔ (
        (s.hydrated ≡ true)
        × (is_set s.access_token ≡ true)
        × (visible_with (role_of s) (is_feature_enabled (loaded flags)) i ≡ true))
unfolding item_route is_visible
item_route_iff s flags i = ground arith

-- Every item of the list that is open to managers is open to owners.
abbrev opens_to_owner : NavItem → Bool
opens_to_owner i = not (allows i.roles manager) || allows i.roles owner

keep_visible :
    (enabled : FeatureModule → Bool) (items : List NavItem)
    → every opens_to_owner items ≡ true
    → keep (λ i. allows i.roles manager) (keep (is_visible owner enabled) items)
      ≡ keep (is_visible manager enabled) items
unfolding is_visible
keep_visible enabled [] h = refl
keep_visible enabled (i ∷ items) h = ground (arith, keep_visible enabled items)

nav_items_open : every opens_to_owner nav_items ≡ true
unfolding allows
nav_items_open = refl

-- Whatever the features, the owner's sidebar lists every item that a manager's lists, in a list of
-- which the manager's is the part that is open to managers.
pub manager_sees_less :
    (enabled : FeatureModule → Bool)
    → keep (λ i. allows i.roles manager) (get_visible_nav_items (some owner) enabled)
      ≡ get_visible_nav_items (some manager) enabled
unfolding get_visible_nav_items
manager_sees_less enabled = keep_visible enabled nav_items nav_items_open
