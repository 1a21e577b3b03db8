-- ===== src/Client/Exclusion.antt =====
-- The sign-in and refresh endpoints never set a refresh off.
use why_not_grace_pos.Prelude.{
  String, true, ◌≡◌, refl, ◌⊎◌, inl, inr, some, [], ◌∷◌, ◌++◌, arith, starts_with, text_includes,
  text_append,
}
use why_not_grace_pos.Request.{Request, HttpError, http, rejected, Endpoints, is_excluded, is_final}
use why_not_grace_pos.Client.{Client, settle, on_error}

starts_with-text_append : (s t : String) → starts_with (text_append s t) s ≡ true
unfolding starts_with text_append
starts_with-text_append String.[] String.[] = refl
starts_with-text_append String.[] (String.◌∷◌ d t) = refl
starts_with-text_append (String.◌∷◌ c s) t = ground (arith, starts_with-text_append s t)

text_includes_start : (s t : String) → text_includes (text_append s t) s ≡ true
unfolding text_includes text_append
text_includes_start String.[] String.[] = refl
text_includes_start String.[] (String.◌∷◌ d t) = refl
text_includes_start (String.◌∷◌ c s) t = ground (arith, starts_with-text_append (String.◌∷◌ c s) t)

text_includes-text_append :
    (before s after : String) → text_includes (text_append before (text_append s after)) s ≡ true
unfolding text_includes text_append
text_includes-text_append String.[] s after = text_includes_start s after
text_includes-text_append (String.◌∷◌ c before) s after =
    ground (arith, text_includes-text_append before s after)

-- The url has the path of one of the endpoints in it.
abbrev pub Names : Endpoints → Request → String → String → Type 0
Names e r before after =
    (r.url ≡ some (text_append before (text_append e.login after)))
    ⊎ (r.url ≡ some (text_append before (text_append e.refresh after)))

Names-excluded :
    (e : Endpoints) (r : Request) (before after : String)
    → Names e r before after
    → is_excluded e r.url ≡ true
unfolding is_excluded
Names-excluded e r before after (inl h) =
    ground (arith, text_includes-text_append before e.login after)
Names-excluded e r before after (inr h) =
    ground (arith, text_includes-text_append before e.refresh after)

-- A request whose url has the sign-in or the refresh path anywhere in it is rejected at once,
-- whatever its error: no refresh starts, nothing is queued or sent, and the session stays. So a
-- refresh that is refused does not refresh itself.
pub on_error_excluded :
    {U : Type 0} (e : Endpoints) (r : Request) (err : HttpError) (c : Client U)
    (before after : String)
    → Names e r before after
    → on_error e r err c ≡ record c { settled = c.settled ++ ((r.key, rejected (http err)) ∷ []) }
unfolding on_error is_final settle
on_error_excluded e r err c before after names =
    ground (arith, Names-excluded e r before after names)
