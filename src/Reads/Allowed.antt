-- ===== src/Reads/Allowed.antt =====
-- What the pages read against what the service lets their readers read.
use why_not_grace_pos.Prelude.{
  String, Bool, true, false, not, ◌||◌, ◌≡◌, Option, none, some, every, arith,
}
use why_not_grace_pos.Access.{
  UserRole, owner, manager, cash_counter, service_counter, FeatureModule, NavItem, allows,
  same_role, is_visible,
}
use why_not_grace_pos.Api.Calls.{Params}
use why_not_grace_pos.Reads.{Page, pos_page, nav_item_of, page_reads, home_reads, shell_reads}
use why_not_grace_pos.Reads.Backend.{may_read}

-- Whether the sidebar lists the page, and so it is routed to.
abbrev pub is_listed : UserRole → (FeatureModule → Bool) → Option NavItem → Bool
is_listed role enabled none = false
is_listed role enabled (some i) = is_visible role enabled i

module _ (filter : Params) (id : Option String) (enabled : FeatureModule → Bool) where
  -- Every query that a page and its dialogs may make, under whatever filter and for whatever id,
  -- passes the checks of role and feature of its route, for each role and set of features under which
  -- the sidebar lists the page, and so under which it is routed to.
  pub page_reads-may_read :
      (role : UserRole) (p : Page)
      → is_listed role enabled (nav_item_of p) ≡ true
      → every (may_read role enabled) (page_reads filter id p role enabled) ≡ true
  unfolding page_reads may_read is_visible allows
  page_reads-may_read owner pos_page h = ground arith
  page_reads-may_read owner _ h = ground arith
  page_reads-may_read manager pos_page h = ground arith
  page_reads-may_read manager _ h = ground arith
  page_reads-may_read cash_counter pos_page h = ground arith
  page_reads-may_read cash_counter _ h = ground arith
  page_reads-may_read service_counter pos_page h = ground arith
  page_reads-may_read service_counter _ h = ground arith
  page_reads-may_read UserRole.kitchen pos_page h = ground arith
  page_reads-may_read UserRole.kitchen _ h = ground arith
  page_reads-may_read UserRole.delivery pos_page h = ground arith
  page_reads-may_read UserRole.delivery _ h = ground arith

module _ (filter : Params) (id : Option String) (enabled : FeatureModule → Bool) where
  -- All that the page at "/" and its cards read passes the checks of role and feature of the routes, for
  -- every role but the delivery role, and for that one exactly while the delivery feature is on; and
  -- all that the shell around the pages reads passes them for the owner alone.
  pub home_reads-may_read :
      (role : UserRole)
      → (every (may_read role enabled) (home_reads filter id role)
          ≡ (not (same_role role UserRole.delivery) || enabled FeatureModule.delivery))
        × (every (may_read role enabled) shell_reads ≡ same_role role owner)
  unfolding home_reads may_read same_role
  home_reads-may_read owner = ground arith
  home_reads-may_read manager = ground arith
  home_reads-may_read cash_counter = ground arith
  home_reads-may_read service_counter = ground arith
  home_reads-may_read UserRole.kitchen = ground arith
  home_reads-may_read UserRole.delivery = ground arith
