-- ===== src/Access.antt =====
-- Who sees and reaches which page: frontend/src/config/navigation.ts, the route guards of
-- frontend/src/routes, the routes that frontend/src/App.tsx builds from the navigation, and
-- `useIsFeatureEnabled` of frontend/src/features/settings/hooks.ts. A page's icon is left out.
pub mod Guards
pub mod Home
mod Tests
use why_not_grace_pos.Prelude.{
  ℕ, String, Bool, true, false, not, ◌&&◌, Option, none, some, List, [], ◌∷◌, ◌≡◌, refl, ◌↔◌, arith,
  ◌==◌, nat_eq, find, keep, is_set, if◌then◌else◌,
}
use why_not_grace_pos.Auth.{AuthStore}

pub data UserRole : Type 0 where
  owner manager cash_counter service_counter kitchen delivery : UserRole

pub data FeatureModule : Type 0 where
  core_pos qr_ordering online_website pickup delivery loyalty hotel_rooms room_service :
      FeatureModule
  online_payment zomato swiggy reviews customer_marketing partner_channel : FeatureModule

role_number : UserRole → ℕ
role_number owner = 0
role_number manager = 1
role_number cash_counter = 2
role_number service_counter = 3
role_number kitchen = 4
role_number UserRole.delivery = 5

feature_number : FeatureModule → ℕ
feature_number core_pos = 0
feature_number qr_ordering = 1
feature_number online_website = 2
feature_number pickup = 3
feature_number FeatureModule.delivery = 4
feature_number loyalty = 5
feature_number hotel_rooms = 6
feature_number room_service = 7
feature_number online_payment = 8
feature_number zomato = 9
feature_number swiggy = 10
feature_number reviews = 11
feature_number customer_marketing = 12
feature_number partner_channel = 13

unfoldable pub same_role : UserRole → UserRole → Bool
unfolding role_number
same_role a b = nat_eq (role_number a) (role_number b)

unfoldable pub same_feature : FeatureModule → FeatureModule → Bool
unfolding feature_number
same_feature a b = nat_eq (feature_number a) (feature_number b)

pub record UserOut : Type 0 where
  pub id : String
  pub business_id : String
  pub first_name : String
  pub last_name : String
  pub email : String
  pub mobile : String
  pub role : UserRole
  pub is_email_verified : Bool

pub record FeatureFlagOut : Type 0 where
  pub feature : FeatureModule
  pub enabled : Bool

pub record NavItem : Type 0 where
  pub label_key : String
  pub path : String
  pub roles : List UserRole
  pub feature_flag : Option FeatureModule

abbrev item : String → String → List UserRole → Option FeatureModule → NavItem
item label path roles flag = record {
  label_key = label;
  path = path;
  roles = roles;
  feature_flag = flag;
}

abbrev pub nav_items : List NavItem
nav_items =
    item "nav.dashboard" "/" (owner ∷ manager ∷ []) none
    ∷ item "nav.pos" "/pos" (owner ∷ manager ∷ cash_counter ∷ service_counter ∷ []) none
    ∷ item "nav.orders" "/orders" (owner ∷ manager ∷ cash_counter ∷ service_counter ∷ []) none
    ∷ item "nav.tables" "/tables" (owner ∷ manager ∷ service_counter ∷ []) none
    ∷ item "nav.rooms" "/rooms" (owner ∷ manager ∷ []) (some hotel_rooms)
    ∷ item "nav.kitchen" "/kitchen" (owner ∷ manager ∷ kitchen ∷ []) none
    ∷ item "nav.delivery" "/delivery" (UserRole.delivery ∷ []) (some FeatureModule.delivery)
    ∷ item "nav.menu" "/menu" (owner ∷ manager ∷ []) none
    ∷ item "nav.customers" "/customers" (owner ∷ manager ∷ cash_counter ∷ []) none
    ∷ item "nav.loyalty" "/loyalty" (owner ∷ manager ∷ []) (some loyalty)
    ∷ item "nav.shift" "/shift" (owner ∷ manager ∷ cash_counter ∷ []) none
    ∷ item "nav.billing" "/billing" (owner ∷ manager ∷ cash_counter ∷ []) none
    ∷ item "nav.reports" "/reports" (owner ∷ manager ∷ []) none
    ∷ item "nav.staff" "/staff" (owner ∷ []) none
    ∷ item "nav.integrations" "/integrations" (owner ∷ []) none
    ∷ item "nav.featureFlags" "/feature-flags" (owner ∷ []) none
    ∷ item "nav.settings" "/settings" (owner ∷ []) none
    ∷ item "nav.subscription" "/subscription" (owner ∷ []) none
    ∷ []

unfoldable pub allows : List UserRole → UserRole → Bool
unfolding same_role
allows [] role = false
allows (r ∷ rs) role = if same_role r role then true else allows rs role

-- `flags?.find(…)?.enabled ?? false`: with no flags loaded, every module counts as disabled.
unfoldable pub is_feature_enabled : Option (List FeatureFlagOut) → FeatureModule → Bool
unfolding same_feature
is_feature_enabled none m = false
is_feature_enabled (some flags) m = elim (find (λ f. same_feature f.feature m) flags) [
  | none ↦ false
  | some f ↦ f.enabled
]

-- The test of `getVisibleNavItems`.
unfoldable pub is_visible : UserRole → (FeatureModule → Bool) → NavItem → Bool
unfolding allows
is_visible role enabled i =
    if not (allows i.roles role)
    then false
    else elim i.feature_flag [ none ↦ true | some m ↦ if not (enabled m) then false else true ]

unfoldable pub get_visible_nav_items : Option UserRole → (FeatureModule → Bool) → List NavItem
unfolding is_visible
get_visible_nav_items none enabled = []
get_visible_nav_items (some role) enabled = keep (is_visible role enabled) nav_items

-- What a route shows: a full-page spinner, a redirect, or the page itself.
pub data View : Type 0 where
  spinner : View
  to_login : View
  to_home : View
  page : View

unfoldable pub protected_route : AuthStore UserOut → View → View
protected_route s outlet =
    if not s.hydrated then spinner else if not (is_set s.access_token) then to_login else outlet

-- `useAuthStore((s) => s.user?.role)`.
unfoldable pub role_of : AuthStore UserOut → Option UserRole
role_of s = elim s.user [ none ↦ none | some u ↦ some u.role ]

unfoldable pub role_route : List UserRole → Option UserRole → View → View
unfolding allows
role_route allowed none outlet = to_home
role_route allowed (some role) outlet = if not (allows allowed role) then to_home else outlet

-- `none` is a query that is still loading, `some none` one that has no data.
unfoldable pub feature_route : FeatureModule → Option (Option (List FeatureFlagOut)) → View → View
unfolding is_feature_enabled
feature_route m none outlet = spinner
feature_route m (some flags) outlet = if not (is_feature_enabled flags m) then to_home else outlet

-- The route that `App` makes of one navigation item.
unfoldable pub item_route :
    AuthStore UserOut → Option (Option (List FeatureFlagOut)) → NavItem → View
unfolding protected_route role_route feature_route role_of
item_route s flags i = protected_route s (
    role_route i.roles (role_of s)
      (elim i.feature_flag [ none ↦ page | some m ↦ feature_route m flags page ]))
