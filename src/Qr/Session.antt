-- ===== src/Qr/Session.antt =====
-- Which session a guest orders under.
use why_not_grace_pos.Prelude.{
  String, true, false, ◌≡◌, refl, ◌⊎◌, inl, inr, Option, none, some, List, [], ◌∷◌, arith, eq_iff,
  Number, is_set, is_truthy, Bool-cases,
}
use why_not_grace_pos.Qr.{
  QrScanResponse, QrRoute, QrBootstrap, QrEvent, shows, gives, fails, ready, is_same,
  is_qr_session_expired, has_valid_existing, scan_effect, scan_gives, scan_fails, qr_step, qr_run,
}

is_same_lem : (a : Option String) (t : String) → is_same a t ≡ true → a ≡ some t
is_same_lem none t h = ground arith
is_same_lem (some s) t h = ground (arith, eq_iff s t)

-- What holds while the page shows a route: it is ready only with a session of the route's business,
-- and the one call that may be under way is the route's own.
abbrev pub IsOf : QrRoute → QrBootstrap → Type 0
IsOf route b =
    (b.status ≡ ready → b.store.business_slug ≡ some route.business_slug)
    × ((b.scan ≡ none) ⊎ (b.scan ≡ some route))

scan_gives-IsOf :
    (route : QrRoute) (response : QrScanResponse) (b : QrBootstrap)
    → IsOf route b
    → IsOf route (scan_gives response b)
unfolding scan_gives
scan_gives-IsOf route response b (h, inl e) = rw (e, scan_gives) (h, inl e)
scan_gives-IsOf route response b (h, inr e) = rw (e, scan_gives) (λ _. refl, inl refl)

scan_fails-IsOf :
    (route : QrRoute) (message : String) (b : QrBootstrap)
    → IsOf route b
    → IsOf route (scan_fails message b)
unfolding scan_fails
scan_fails-IsOf route message b (h, inl e) = rw (e, scan_fails) (h, inl e)
scan_fails-IsOf route message b (h, inr e) = rw (e, scan_fails) (λ k. ground arith, inl refl)

module _ {ℓ} {N : Type ℓ} ⦃n : Number N⦄ (time_of : String → Option N) where
  has_valid_existing-slug :
      (now : N) (route : QrRoute) (b : QrBootstrap)
      → has_valid_existing time_of now route b.store ≡ true
      → b.store.business_slug ≡ some route.business_slug
  unfolding has_valid_existing
  has_valid_existing-slug now route b h =
      is_same_lem b.store.business_slug route.business_slug (ground arith)

  scan_effect-IsOf :
      (now : N) (route : QrRoute) (b : QrBootstrap) → IsOf route (scan_effect time_of now route b)
  unfolding scan_effect
  scan_effect-IsOf now route b = elim (Bool-cases (has_valid_existing time_of now route b.store)) [
    | inl h ↦ rw (h) (λ _. has_valid_existing-slug now route b h, inl refl)
    | inr h ↦ elim (Bool-cases (is_set route.code)) [
      | inl c ↦ rw (h, c) (λ k. ground arith, inr refl)
      | inr c ↦ rw (h, c) (λ k. ground arith, inl refl)
    ]
  ]

  -- The route that the page shows after the events.
  abbrev pub last_route : QrRoute → List (QrEvent N) → QrRoute
  last_route route [] = route
  last_route route (shows now other ∷ es) = last_route other es
  last_route route (gives response ∷ es) = last_route route es
  last_route route (fails message ∷ es) = last_route route es

  qr_run-IsOf :
      (route : QrRoute) (b : QrBootstrap) (es : List (QrEvent N))
      → IsOf route b
      → IsOf (last_route route es) (qr_run time_of b es)
  unfolding qr_run qr_step
  qr_run-IsOf route b [] h = h
  qr_run-IsOf route b (shows now other ∷ es) h =
      qr_run-IsOf other (scan_effect time_of now other b) es (scan_effect-IsOf now other b)
  qr_run-IsOf route b (gives response ∷ es) h =
      qr_run-IsOf route (scan_gives response b) es (scan_gives-IsOf route response b h)
  qr_run-IsOf route b (fails message ∷ es) h =
      qr_run-IsOf route (scan_fails message b) es (scan_fails-IsOf route message b h)

  -- Once the page has shown a route, and whatever it shows and is answered after that, it is ready
  -- only with a session of the business that it shows: no answer to a call for an earlier route and
  -- no stored session of another business makes it ready.
  pub qr_run-ready :
      (now : N) (route : QrRoute) (b : QrBootstrap) (es : List (QrEvent N))
      → (qr_run time_of (scan_effect time_of now route b) es).status ≡ ready
      → (qr_run time_of (scan_effect time_of now route b) es).store.business_slug
        ≡ some (last_route route es).business_slug
  qr_run-ready now route b es =
      (qr_run-IsOf route (scan_effect time_of now route b) es (scan_effect-IsOf now route b)).0

  -- After a scan that gave a session for the location that was asked for, with a token, showing the
  -- route again before the session expires makes no call and changes nothing: a reload of the page
  -- goes on under the same session.
  pub scan_effect-scan_gives :
      (now : N) (route : QrRoute) (response : QrScanResponse) (b : QrBootstrap)
      → b.scan ≡ some route
      → is_truthy response.session_token ≡ true
      → response.location_id ≡ route.location_id
      → is_qr_session_expired time_of now (some response.expires_at) ≡ false
      → let after = scan_gives response b in scan_effect time_of now route after ≡ after
  unfolding scan_effect scan_gives has_valid_existing
  scan_effect-scan_gives now route response b asked token same fresh =
      rw (asked, scan_gives)
        (ground (
          arith,
          eq_iff route.business_slug route.business_slug,
          eq_iff response.location_id route.location_id,
        ))
