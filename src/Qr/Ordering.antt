-- ===== src/Qr/Ordering.antt =====
-- What a guest's order posts.
use why_not_grace_pos.Prelude.{
  String, ◌≡◌, ◌≢◌, refl, ap, ◌∙◌, none, false, List, [], ◌∷◌, ◌++◌, map,
}
use mathlib.Core.List.{append_assoc}
use why_not_grace_pos.Cart.{CartLine}
use why_not_grace_pos.Qr.{
  QrSheet, has_no_lines, qr_cart_item, qr_order_request, place_qr_order, qr_order_placed,
  qr_order_failed,
}

module _ {ℓ} {N : Type ℓ} where
  has_no_lines_lem : (lines : List (CartLine N)) → lines ≢ [] → has_no_lines lines ≡ false
  has_no_lines_lem [] h = absurd (h refl)
  has_no_lines_lem (l ∷ ls) h = refl

  place_qr_order_lem :
      (token : String) (s : QrSheet N)
      → s.lines ≢ []
      → place_qr_order token s
        ≡ record s { error = none; posted = s.posted ++ ((token, qr_order_request s) ∷ []) }
  unfolding place_qr_order
  place_qr_order_lem token s nonempty = rw (has_no_lines_lem s.lines nonempty) refl

  quantities-qr_cart_item :
      (lines : List (CartLine N))
      → map (λ i. i.quantity) (map qr_cart_item lines) ≡ map (λ l. l.quantity) lines
  unfolding qr_cart_item
  quantities-qr_cart_item [] = refl
  quantities-qr_cart_item (l ∷ ls) = ap (λ t. l.quantity ∷ t) (quantities-qr_cart_item ls)

  -- A guest's order of a cart with lines posts one request under the session's token, with an item
  -- for each line in the lines' order and with the lines' quantities. If it fails, pressing again
  -- posts the same request again; once it is taken, pressing again posts nothing.
  pub place_qr_order_posts :
      (token message : String) (s : QrSheet N)
      → s.lines ≢ []
      → let r = qr_order_request s in
        let sent = place_qr_order token s in
        (sent.posted ≡ s.posted ++ ((token, r) ∷ []))
        × (map (λ i. i.quantity) r.items ≡ map (λ l. l.quantity) s.lines)
        × ((place_qr_order token (qr_order_failed message sent)).posted
            ≡ s.posted ++ ((token, r) ∷ (token, r) ∷ []))
        × (place_qr_order token (qr_order_placed sent) ≡ qr_order_placed sent)
  unfolding qr_order_request qr_order_placed qr_order_failed place_qr_order
  place_qr_order_posts token message s nonempty =
      let sent = place_qr_order_lem token s nonempty in
      let again =
        place_qr_order_lem token
          (qr_order_failed message
            (record s { error = none; posted = s.posted ++ ((token, qr_order_request s) ∷ []) }))
          nonempty in
      (
        ap (λ t. t.posted) sent,
        quantities-qr_cart_item s.lines,
        rw (sent) (
            ap (λ t. t.posted) again
            ∙ append_assoc s.posted ((token, qr_order_request s) ∷ [])
                ((token, qr_order_request s) ∷ [])),
        refl,
      )
