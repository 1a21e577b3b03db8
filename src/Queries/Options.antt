-- ===== src/Queries/Options.antt =====
-- Keys, queries and mutations as TanStack Query takes them.
use why_not_grace_pos.Prelude.{
  ℕ, String, Bool, true, false, Option, none, some, List, [], ◌∷◌, is_truthy, if◌then◌else◌,
}
use why_not_grace_pos.Access.{UserRole, owner, manager}
use why_not_grace_pos.Api.Calls.{Call, Params, text}

-- A part of a query key: a text, null or undefined, a number by its text, or an object of filters.
pub data Part : Type 0 where
  name : String → Part
  nothing : Part
  number : String → Part
  params : Params → Part

abbrev pub Key : Type 0
Key = List Part

abbrev pub maybe : Option String → Part
maybe none = nothing
maybe (some s) = name s

abbrev pub maybe_number : Option String → Part
maybe_number none = nothing
maybe_number (some s) = number s

-- `id ?? "all"`.
abbrev pub or_all : Option String → Part
or_all none = name "all"
or_all (some s) = name s

-- A header's text; the call is disabled where there is none.
abbrev pub text_of : Option String → String
text_of none = "null"
text_of (some s) = s

-- `id ? { field: id } : {}`.
abbrev pub filter_by : String → Option String → Params
filter_by field none = []
filter_by field (some s) = if is_truthy s then (field, text s) ∷ [] else []

-- `amount !== null`; an amount that is not finite is none.
abbrev pub is_amount : Option String → Bool
is_amount none = false
is_amount (some s) = true

-- `DASHBOARD_ROLES`.
unfoldable pub is_dashboard_role : Option UserRole → Bool
is_dashboard_role none = false
is_dashboard_role (some owner) = true
is_dashboard_role (some manager) = true
is_dashboard_role (some _) = false

-- `staleTime` of the query client, for the queries that give none.
abbrev pub default_stale_time : ℕ
default_stale_time = 30_000

-- Times are in milliseconds.
pub record QueryOptions : Type 0 where
  pub query_key : Key
  pub query_fn : Call
  pub enabled : Bool
  pub stale_time : ℕ
  pub refetch_interval : Option ℕ

-- `invalidateQueries` and `setQueryData`, the latter with the answer.
pub data Effect : Type 0 where
  invalidate write : Key → Effect

-- `on_success` is given the id in the answer: of the bill, or for a payment of its bill.
pub record MutationOptions : Type 0 where
  pub mutation_fn : Call
  pub on_success : String → List Effect
