-- ===== src/Errors/Fields.antt =====
-- The message that each field of a form shows.
use why_not_grace_pos.Prelude.{
  String, ◌≡◌, refl, ap, ◌∙◌, Option, none, some, List, [], ◌∷◌, arith, ◌==◌, eq_iff, if◌then◌else◌,
}
use why_not_grace_pos.Errors.{
  ValidationError, items, Response, axios_error, FieldErrors, field_path_to_name, set_field,
  set_fields, first_message, from_detail, parse_api_error,
}

-- `fieldErrors[field]`.
abbrev pub shown_at : String → FieldErrors → Option String
shown_at field [] = none
shown_at field ((f, m) ∷ rest) = if f == field then some m else shown_at field rest

-- The message of the last of the errors about the field, or else what was there before.
abbrev pub last_about : String → List ValidationError → Option String → Option String
last_about field [] before = before
last_about field (e ∷ es) before =
    last_about field es (if field_path_to_name e.loc == field then some e.msg else before)

shown_at-set_field :
    (field f msg : String) (fields : FieldErrors)
    → shown_at field (set_field f msg fields)
      ≡ (if f == field then some msg else shown_at field fields)
unfolding set_field
shown_at-set_field field f msg [] = ground arith
shown_at-set_field field f msg ((g, m) ∷ rest) =
    ground (arith, eq_iff f field, eq_iff g field, eq_iff g f, shown_at-set_field field f msg rest)

shown_at-set_fields :
    (field : String) (es : List ValidationError) (fields : FieldErrors)
    → shown_at field (set_fields es fields) ≡ last_about field es (shown_at field fields)
unfolding set_fields
shown_at-set_fields field [] fields = refl
shown_at-set_fields field (e ∷ es) fields =
    shown_at-set_fields field es (set_field (field_path_to_name e.loc) e.msg fields)
    ∙ ap (last_about field es) (shown_at-set_field field (field_path_to_name e.loc) e.msg fields)

-- For an answer with a list of validation errors, the parsed error's `fieldErrors` has under each name
-- the message of the last error about it, and nothing under a name that no error is about; its message
-- is that of the first error, and its status is the answer's.
pub parse_api_error-fields :
    (field : String) (r : Response) (code : Option String) (es : List ValidationError)
    → r.detail ≡ items es
    → let e = parse_api_error (axios_error (some r) code) in
      (shown_at field e.field_errors ≡ last_about field es none)
      × (e.message ≡ first_message es)
      × (e.status ≡ some r.status.code)
unfolding parse_api_error
parse_api_error-fields field r code es h =
    rw (h, from_detail) (shown_at-set_fields field es [], refl, refl)
