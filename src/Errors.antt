-- ===== src/Errors.antt =====
-- Errors as the app shows them: frontend/src/api/errors.ts, and which queries are tried again:
-- frontend/src/lib/queryClient.ts. A number in a location or a status stands beside its text, which
-- is all that a template literal and `join` make of it.
pub mod Fields
pub mod Retry
mod Tests
use why_not_grace_pos.Prelude.{
  ℕ, ◌<◌, String, Bool, true, false, not, ◌&&◌, ◌||◌, Option, none, some, List, [], ◌∷◌, map, ◌==◌,
  keep, join, is_truthy, text_append, nat_eq, ltb, if◌then◌else◌,
}

-- An entry of `loc`: text, or the text of a number.
pub data LocPart : Type 0 where
  name : String → LocPart
  index : String → LocPart

pub record ValidationError : Type 0 where
  pub loc : List LocPart
  pub msg : String
  pub kind : String

-- The `detail` of an answer: a list, a text, or something else or nothing.
pub data Detail : Type 0 where
  items : List ValidationError → Detail
  message : String → Detail
  other : Detail

pub record Status : Type 0 where
  pub code : ℕ
  pub shown : String

pub record Response : Type 0 where
  pub status : Status
  pub detail : Detail

-- What can be caught: an AxiosError with its `response` and `code`, another Error, or any value.
pub data Caught : Type 0 where
  axios_error : Option Response → Option String → Caught
  plain_error : String → Caught
  unknown_value : Caught

-- The fields' messages, each under its field once.
abbrev pub FieldErrors : Type 0
FieldErrors = List (String × String)

pub record ApiError : Type 0 where
  pub message : String
  pub status : Option ℕ
  pub field_errors : FieldErrors

abbrev pub api_error : String → Option ℕ → ApiError
api_error text status = record { message = text; status = status; field_errors = [] }

abbrev pub part_text : LocPart → String
part_text (name s) = s
part_text (index s) = s

-- The filter keeps all but the three places that FastAPI puts first.
unfoldable pub is_field_part : LocPart → Bool
is_field_part (name s) = not (s == "body") && not (s == "query") && not (s == "path")
is_field_part (index s) = true

unfoldable pub field_path_to_name : List LocPart → String
unfolding is_field_part
field_path_to_name loc =
    let parts = join "." (map part_text (keep is_field_part loc)) in
    if is_truthy parts then parts else "form"

-- `fieldErrors[field] = msg`.
unfoldable pub set_field : String → String → FieldErrors → FieldErrors
set_field field msg [] = (field, msg) ∷ []
set_field field msg ((f, m) ∷ rest) =
    if f == field then (f, msg) ∷ rest else (f, m) ∷ set_field field msg rest

unfoldable pub set_fields : List ValidationError → FieldErrors → FieldErrors
unfolding set_field
set_fields [] fields = fields
set_fields (e ∷ es) fields = set_fields es (set_field (field_path_to_name e.loc) e.msg fields)

unfoldable pub first_message : List ValidationError → String
first_message [] = "Please check the form and try again."
first_message (e ∷ _) = e.msg

abbrev pub status_of : Option Response → Option ℕ
status_of none = none
status_of (some r) = some r.status.code

abbrev pub was_cancelled : Option String → Bool
was_cancelled none = false
was_cancelled (some code) = code == "ERR_CANCELED"

-- The last two answers of the branch for an AxiosError.
unfoldable pub without_detail : Option Response → Option String → ApiError
without_detail response code =
    if was_cancelled code then api_error "Request cancelled" none else elim response [
      | none ↦ api_error "Could not reach the server. Check your connection and try again." none
      | some r ↦
          api_error (text_append "Something went wrong (" (text_append r.status.shown ")."))
            (some r.status.code)
    ]

unfoldable pub from_detail : Detail → Option Response → Option String → ApiError
unfolding set_fields first_message without_detail
from_detail (items errors) response code = record {
  message = first_message errors;
  status = status_of response;
  field_errors = set_fields errors [];
}
from_detail (message text) response code = api_error text (status_of response)
from_detail other response code = without_detail response code

abbrev pub detail_of : Option Response → Detail
detail_of none = other
detail_of (some r) = r.detail

unfoldable pub parse_api_error : Caught → ApiError
unfolding from_detail
parse_api_error (axios_error response code) = from_detail (detail_of response) response code
parse_api_error (plain_error text) = api_error text none
parse_api_error unknown_value = api_error "An unexpected error occurred." none

-- The statuses that are never worth a second try.
unfoldable pub is_client_error : ℕ → Bool
is_client_error s =
    nat_eq s 400 || nat_eq s 401 || nat_eq s 403 || nat_eq s 404 || nat_eq s 409 || nat_eq s 422

unfoldable pub retry : ℕ → Caught → Bool
unfolding is_client_error parse_api_error
retry failure_count error = elim (parse_api_error error).status [
  | none ↦ ltb failure_count 2
  | some s ↦ if is_client_error s then false else ltb failure_count 2
]
