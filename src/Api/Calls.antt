-- ===== src/Api/Calls.antt =====
-- What a call of axios is made of.
use why_not_grace_pos.Prelude.{
  String, Bool, Option, none, some, List, [], ◌∷◌, is_truthy, if◌then◌else◌,
}

-- The three clients of frontend/src/api: client.ts, qrClient.ts and platformClient.ts.
pub data Via : Type 0 where
  staff guest platform : Via

pub data Method : Type 0 where
  get post put delete : Method

-- A part of a path: a word of the template, or an id, which the backend gives and which is no word.
pub data Segment : Type 0 where
  word : String → Segment
  slot : Option String → Segment

-- A value of a parameter or of a field; a number is its text.
pub data Arg : Type 0 where
  text : String → Arg
  number : String → Arg
  flag : Bool → Arg
  null absent : Arg

abbrev pub Params : Type 0
Params = List (String × Arg)

-- A body is the JSON text of a payload that the caller made, or fields that the call itself names.
pub data Body : Type 0 where
  empty : Body
  json : String → Body
  fields : Params → Body

pub record Call : Type 0 where
  pub via : Via
  pub method : Method
  pub path : List Segment
  pub params : Params
  pub body : Body
  pub headers : List (String × String)

abbrev pub call : Via → Method → List Segment → Call
call via method path = record {
  via = via;
  method = method;
  path = path;
  params = [];
  body = empty;
  headers = [];
}

abbrev pub text_or_absent : Option String → Arg
text_or_absent none = absent
text_or_absent (some s) = text s

abbrev pub text_or_null : Option String → Arg
text_or_null none = null
text_or_null (some s) = text s

-- `amount ?? 0`.
abbrev pub number_or_zero : Option String → Arg
number_or_zero none = number "0"
number_or_zero (some n) = number n

-- `idempotencyKey ? { … } : undefined`.
abbrev pub idempotency : Option String → List (String × String)
idempotency none = []
idempotency (some key) = if is_truthy key then ("Idempotency-Key", key) ∷ [] else []
