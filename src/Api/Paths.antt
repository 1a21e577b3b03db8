-- ===== src/Api/Paths.antt =====
-- The paths that the backend declares, as frontend/src/types/api.ts lists them.
use why_not_grace_pos.Prelude.{String, Bool, true, false, ◌&&◌, ◌||◌, ◌==◌, List, [], ◌∷◌}
use why_not_grace_pos.Api.Calls.{Method, get, post, put, delete, Segment, word, slot, Call}

-- A part of a path: a word, or a parameter by its name.
pub data Piece : Type 0 where
  fixed any : String → Piece

-- A path and the methods that it takes.
abbrev pub Endpoint : Type 0
Endpoint = List Piece × List Method

abbrev pub root : List Piece → List Method → Endpoint
root pieces methods = (pieces, methods)

abbrev pub v1 : List Piece → List Method → Endpoint
v1 pieces methods = (fixed "api" ∷ fixed "v1" ∷ pieces, methods)

-- `API_BASE`, after the address of the server.
abbrev pub in_base : List Segment → List Segment
in_base path = word "api" ∷ word "v1" ∷ path

abbrev pub matches : List Piece → List Segment → Bool
matches [] [] = true
matches (fixed w ∷ ps) (word v ∷ ss) = (w == v) && matches ps ss
matches (any n ∷ ps) (slot id ∷ ss) = matches ps ss
matches _ _ = false

abbrev pub same_method : Method → Method → Bool
same_method get get = true
same_method post post = true
same_method put put = true
same_method delete delete = true
same_method _ _ = false

abbrev pub takes : List Method → Method → Bool
takes [] m = false
takes (n ∷ ns) m = same_method n m || takes ns m

-- Some path of the list is that of the call, with its method.
abbrev pub declares : List Endpoint → Call → Bool
declares [] c = false
declares (e ∷ es) c = (matches e.0 (in_base c.path) && takes e.1 c.method) || declares es c
