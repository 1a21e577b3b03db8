-- ===== src/Tables/Floor.antt =====
-- The page that opens the dialog: frontend/src/features/tables/TablesPage.tsx. A `Map` is a function
-- from its keys.
use why_not_grace_pos.Prelude.{
  Bool-cases, String, Bool, not, ◌&&◌, eq_iff, ◌==◌, false, ◌≡◌, refl, sym, ap, ◌∙◌, ◌⊎◌, inl, inr,
  Option, none, some, List, [], ◌∷◌, All, is_truthy, if◌then◌else◌, arith,
}
use why_not_grace_pos.Grouping.{OrderOut}
use why_not_grace_pos.MenuEditor.Drafts.{with_entry}
use why_not_grace_pos.Tables.{
  LocationOut, MoveCall, transfer_session, merge_sessions, MoveProps, MoveDialog, has_entry,
  is_available, is_free_table, is_taken_table,
}
use why_not_grace_pos.Tables.Backend.{StoredSession, accepts_move}
use why_not_grace_pos.Tables.Moves.{Among, IsValid, Reached, Reached-calls}

-- The first order that is at a table sets its entry.
unfoldable pub noted : Option String → String → (String → Option String) → String → Option String
noted none session map = map
noted (some l) session map =
    if is_truthy l && not (has_entry (map l)) then with_entry l session map else map

unfoldable pub sessions_from : (String → Option String) → List OrderOut → String → Option String
unfolding noted
sessions_from map [] = map
sessions_from map (o ∷ os) = sessions_from (noted o.location_id o.session_id map) os

unfoldable pub session_id_by_location : List OrderOut → String → Option String
unfolding sessions_from
session_id_by_location orders = sessions_from (λ k. none) orders

-- Whether the table's card has the button that moves its order.
unfoldable pub can_move : List OrderOut → LocationOut → Bool
unfolding session_id_by_location
can_move orders table = has_entry (session_id_by_location orders table.id)

-- The dialog's props, by `moveTable`.
unfoldable pub move_props : Option LocationOut → List LocationOut → List OrderOut → MoveProps
unfolding session_id_by_location
move_props table tables orders = record {
  table = table;
  session_id = session_of table;
  all_tables = tables;
  session_id_by_location = session_id_by_location orders;
}
  where
    session_of : Option LocationOut → Option String
    session_of none = none
    session_of (some t) = session_id_by_location orders t.id

-- An order of the session stands at the table.
abbrev pub Held : String → String → List OrderOut → Type 0
Held l session [] = ⊥
Held l session (o ∷ os) = ((o.location_id ≡ some l) × (o.session_id ≡ session)) ⊎ Held l session os

noted-some :
    (l : Option String) (session : String) (map : String → Option String) (k s : String)
    → noted l session map k ≡ some s
    → (map k ≡ some s) ⊎ ((l ≡ some k) × (session ≡ s))
unfolding noted
noted-some none session map k s h = inl h
noted-some (some l) session map k s h = ground (arith, eq_iff k l, ap (λ t. some t) {x = l} {y = k})

sessions_from-Held :
    (map : String → Option String) (os : List OrderOut) (k s : String)
    → sessions_from map os k ≡ some s
    → (map k ≡ some s) ⊎ Held k s os
unfolding sessions_from
sessions_from-Held map [] k s h = inl h
sessions_from-Held map (o ∷ os) k s h =
    elim (sessions_from-Held (noted o.location_id o.session_id map) os k s h) [
      | inl e ↦ elim (noted-some o.location_id o.session_id map k s e) [
        | inl m ↦ inl m
        | inr m ↦ inr (inl m)
      ]
      | inr t ↦ inr (inr t)
    ]

session-Held :
    (orders : List OrderOut) (k s : String)
    → session_id_by_location orders k ≡ some s
    → Held k s orders
unfolding session_id_by_location
session-Held orders k s h = elim (sessions_from-Held (λ k. none) orders k s h) [
  | inl e ↦ ground arith
  | inr t ↦ t
]

All-map {ℓ κ μ} :
    {A : Type ℓ} {P : A → Type κ} {Q : A → Type μ}
    → ((x : A) → P x → Q x)
    → (xs : List A) → All P xs
    → All Q xs
All-map f [] h = _
All-map f (x ∷ xs) (h, hs) = (f x h, All-map f xs hs)

module _ (sessions : String → Option StoredSession) (billed : String → Bool)
    (locations : String → Option LocationOut) where
  -- Each active order's session is open and stored at the order's table, and the page's tables are as
  -- they are stored.
  abbrev pub IsInStep : List LocationOut → List OrderOut → Type 0
  IsInStep tables orders =
      ((l s : String)
        → Held l s orders
        → (st : StoredSession) × (sessions s ≡ some st)
          × (st.location_id ≡ some l)
          × (st.is_closed ≡ false))
      × ((t : LocationOut) → Among t tables → locations t.id ≡ some t)

  abbrev pub is_active_target : Option LocationOut → Bool
  is_active_target none = false
  is_active_target (some l) = l.is_active

  -- What the page does not look at.
  abbrev pub passes_rest : MoveCall → Bool
  passes_rest (transfer_session session id) =
      not (billed session) && is_active_target (locations id)
  passes_rest (merge_sessions session into) = not (billed session) && not (billed into)

  IsValid-accepts_move :
      (table : LocationOut) (tables : List LocationOut) (orders : List OrderOut)
      → IsInStep tables orders
      → (call : MoveCall) → IsValid (move_props (some table) tables orders) call
      → accepts_move sessions billed locations call ≡ passes_rest call
  unfolding move_props is_free_table is_taken_table accepts_move is_available
  IsValid-accepts_move table tables orders (seen, same) (transfer_session session id)
        (h, (t, e, a, f)) =
      let (st, k, l, c) = seen table.id session (session-Held orders table.id session h) in
      rw (sym e, same t a, k, l, c) (ground (arith, eq_iff t.id table.id, eq_iff table.id t.id))
  IsValid-accepts_move table tables orders (seen, same) (merge_sessions session into)
        (h, (t, e, a, f)) =
      let (st, k, l, c) = seen table.id session (session-Held orders table.id session h) in
      let (su, m, n, d) = seen t.id into (session-Held orders t.id into e) in
      let apart : (session == into) ≡ false = elim (Bool-cases (session == into)) [
        | inl q ↦
            let one : su ≡ st =
              let u : some su ≡ some st =
                sym m ∙ ap sessions (sym ((eq_iff session into).0 q)) ∙ k in
              cc in
            let at : t.id ≡ table.id =
              let u : some t.id ≡ some table.id =
                sym n ∙ ap (λ x. StoredSession.location_id x) one ∙ l in
              cc in
            absurd (ground (arith, eq_iff t.id table.id))
        | inr q ↦ q
      ] in
      rw (apart, k, m, l, n, c, d) refl

  -- However the dialog is used on the page, while its tables and active orders stay as they are, the
  -- tables are as they are stored, and each order's session is open and stored at the order's table:
  -- the service accepts each request that the dialog makes exactly if no session in it has a bill and,
  -- for a transfer, the new table is active. So of the service's guards, these are the only ones that
  -- the page leaves to it.
  pub Reached-accepts_move :
      (table : LocationOut) (tables : List LocationOut) (orders : List OrderOut)
      → IsInStep tables orders
      → {d : MoveDialog} → Reached (move_props (some table) tables orders) d
      → All (λ c. accepts_move sessions billed locations c ≡ passes_rest c) d.calls
  Reached-accepts_move table tables orders h {d} r =
      All-map (IsValid-accepts_move table tables orders h) d.calls
        (Reached-calls (move_props (some table) tables orders) r)
