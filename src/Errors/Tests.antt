-- ===== src/Errors/Tests.antt =====
-- The theorems about errors at concrete answers.
use why_not_grace_pos.Prelude.{◌≡◌, refl, none, join, some, List, [], ◌∷◌}
use why_not_grace_pos.Errors.{
  name, index, ValidationError, items, Response, axios_error, field_path_to_name, first_message,
  parse_api_error,
}
use why_not_grace_pos.Errors.Fields.{shown_at, last_about, parse_api_error-fields}

abbrev two_errors : List ValidationError
two_errors =
    record {
      loc = name "body" ∷ name "items" ∷ index "0" ∷ [];
      msg = "too few";
      kind = "value_error";
    }
    ∷ record { loc = name "body" ∷ []; msg = "no table"; kind = "value_error" }
    ∷ []

abbrev refused_form : Response
refused_form = record { status = record { code = 422; shown = "422" }; detail = items two_errors }

parse_api_error-fields_example :
    let e = parse_api_error (axios_error (some refused_form) none) in
    (shown_at "items.0" e.field_errors ≡ last_about "items.0" two_errors none)
    × (e.message ≡ first_message two_errors)
    × (e.status ≡ some 422)
parse_api_error-fields_example = parse_api_error-fields "items.0" refused_form none two_errors refl

items_0 : last_about "items.0" two_errors none ≡ some "too few"
unfolding field_path_to_name join
items_0 = refl
