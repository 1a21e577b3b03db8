-- ===== src/Tables/Moves.antt =====
-- Where an order can be moved to.
use why_not_grace_pos.Prelude.{
  String, Bool, true, ◌&&◌, ◌≡◌, refl, sym, ap, ◌⊎◌, inl, inr, Option, none, some, List, [], ◌∷◌,
  arith, keep, All, All-append, Bool-cases, is_truthy,
}
use why_not_grace_pos.Tables.{
  LocationOut, Mode, transfer, merge, MoveCall, transfer_session, merge_sessions, MoveProps,
  MoveDialog, is_free_table, is_taken_table, has_table, is_option, options, reset, set_mode,
  set_target, move_call, with_call, confirm_for, handle_confirm, move_succeeded, move_failed,
}

abbrev pub Among : LocationOut → List LocationOut → Type 0
Among t [] = ⊥
Among t (x ∷ xs) = (t ≡ x) ⊎ Among t xs

Among-keep :
    (p : LocationOut → Bool) (t : LocationOut) (ts : List LocationOut)
    → Among t (keep p ts)
    → Among t ts × (p t ≡ true)
Among-keep p t [] h = absurd h
Among-keep p t (x ∷ xs) h = ground (arith, Among-keep p t xs)

-- A transfer goes to an available table and a merge into the session that is open at a table that is
-- not available; neither goes to the order's own table, and both move the order's own session.
abbrev pub IsValid : MoveProps → MoveCall → Type 0
IsValid p (transfer_session session id) =
    (p.session_id ≡ some session)
    × ((t : LocationOut) × (t.id ≡ id) × Among t p.all_tables × (is_free_table p t ≡ true))
IsValid p (merge_sessions session into) =
    (p.session_id ≡ some session)
    × ((t : LocationOut) × (p.session_id_by_location t.id ≡ some into)
        × Among t p.all_tables
        × (is_taken_table p t ≡ true))

-- What the dialog can come to, with the tables and sessions that it was opened with.
pub data Reached (p : MoveProps) : MoveDialog → Type 0 where
  opens : Reached p (reset [])
  chooses : {d : MoveDialog} (mode : Mode) → Reached p d → Reached p (set_mode mode d)
  targets :
      {d : MoveDialog} (t : LocationOut)
      → Among t (options p d.mode)
      → Reached p d
      → Reached p (set_target t d)
  confirms : {d : MoveDialog} → Reached p d → Reached p (handle_confirm p d)
  succeeds : {d : MoveDialog} → Reached p d → Reached p (move_succeeded d)
  fails : {d : MoveDialog} (message : String) → Reached p d → Reached p (move_failed message d)

-- The target is none, or one of the options of the mode.
abbrev pub IsChosen : MoveProps → MoveDialog → Type 0
IsChosen p d =
    (d.target_id ≡ "") ⊎ ((t : LocationOut) × (t.id ≡ d.target_id) × Among t (options p d.mode))

abbrev pub IsValidIfMade : MoveProps → Option MoveCall → Type 0
IsValidIfMade p none = Unit
IsValidIfMade p (some call) = IsValid p call

merge-IsValid :
    (p : MoveProps) (session : String) (t : LocationOut)
    → p.session_id ≡ some session
    → Among t (options p merge)
    → (into : Option String) → p.session_id_by_location t.id ≡ into
    → IsValidIfMade p (move_call p session (record (reset []) { mode = merge; target_id = t.id }))
unfolding move_call options is_option
merge-IsValid p session t hs a none e = rw (e, move_call) tt
merge-IsValid p session t hs a (some into) e = elim (Bool-cases (is_truthy into)) [
  | inl k ↦
      let (among, taken) = Among-keep (is_taken_table p) t p.all_tables a in
      rw (e, k, move_call) (hs, (t, e, among, taken))
  | inr k ↦ rw (e, k, move_call) tt
]

move_call-IsValid :
    (p : MoveProps) (session : String) (d : MoveDialog) (mode : Mode) (t : LocationOut)
    → d.mode ≡ mode
    → p.session_id ≡ some session
    → t.id ≡ d.target_id
    → Among t (options p mode)
    → IsValidIfMade p (move_call p session d)
unfolding move_call options is_option
move_call-IsValid p session d transfer t m hs e a =
    let (among, free) = Among-keep (is_free_table p) t p.all_tables a in
    rw (m, move_call) (hs, (t, e, among, free))
move_call-IsValid p session d merge t m hs e a =
    rw (m, sym e, move_call) (merge-IsValid p session t hs a (p.session_id_by_location t.id) refl)

with_call-IsValid :
    (p : MoveProps) (d : MoveDialog) (call : Option MoveCall)
    → All (IsValid p) d.calls
    → IsValidIfMade p call
    → All (IsValid p) (with_call call d).calls
with_call-IsValid p d none h v = h
with_call-IsValid p d (some c) h v = All-append (IsValid p) d.calls (c ∷ []) h (v, tt)

-- The dialog's invariant.
abbrev pub IsSafe : MoveProps → MoveDialog → Type 0
IsSafe p d = All (IsValid p) d.calls × IsChosen p d

with_call-target_id :
    (d : MoveDialog) (call : Option MoveCall) → (with_call call d).target_id ≡ d.target_id
with_call-target_id d none = refl
with_call-target_id d (some c) = refl

with_call-mode : (d : MoveDialog) (call : Option MoveCall) → (with_call call d).mode ≡ d.mode
with_call-mode d none = refl
with_call-mode d (some c) = refl

not_truthy : (s : String) → s ≡ "" → is_truthy s ≡ true → ⊥
not_truthy s e k = ground (arith, ap is_truthy e)

made-IsSafe :
    (p : MoveProps) (session : String) (d : MoveDialog)
    → p.session_id ≡ some session
    → is_truthy d.target_id ≡ true
    → IsSafe p d
    → IsSafe p (with_call (move_call p session d) d)
made-IsSafe p session d hs k (h, inl e) = absurd (not_truthy d.target_id e k)
made-IsSafe p session d hs k (h, inr (t, e, a)) = (
  with_call-IsValid p d (move_call p session d) h
      (move_call-IsValid p session d d.mode t refl hs e a),
  rw (with_call-target_id d (move_call p session d), with_call-mode d (move_call p session d))
      (inr (t, e, a)),
)

confirm_for-IsSafe :
    (p : MoveProps) (d : MoveDialog) (session : Option String)
    → p.session_id ≡ session
    → IsSafe p d
    → IsSafe p (confirm_for p session d)
unfolding confirm_for
confirm_for-IsSafe p d none hs v = v
confirm_for-IsSafe p d (some session) hs v =
    elim (Bool-cases (is_truthy session && is_truthy d.target_id)) [
      | inl k ↦ rw (k) (made-IsSafe p session d hs (ground arith) v)
      | inr k ↦ rw (k) v
    ]

handle_confirm-IsSafe :
    (p : MoveProps) (d : MoveDialog) → IsSafe p d → IsSafe p (handle_confirm p d)
unfolding handle_confirm
handle_confirm-IsSafe p d v = elim (Bool-cases (has_table p.table)) [
  | inl k ↦ rw (k) (confirm_for-IsSafe p d p.session_id refl v)
  | inr k ↦ rw (k) v
]

Reached-IsSafe : (p : MoveProps) {d : MoveDialog} → Reached p d → IsSafe p d
unfolding set_mode set_target move_succeeded move_failed
Reached-IsSafe p opens = (tt, inl refl)
Reached-IsSafe p (chooses mode r) = ((Reached-IsSafe p r).0, inl refl)
Reached-IsSafe p (targets t a r) = ((Reached-IsSafe p r).0, inr (t, refl, a))
Reached-IsSafe p (confirms {d} r) = handle_confirm-IsSafe p d (Reached-IsSafe p r)
Reached-IsSafe p (succeeds r) = ((Reached-IsSafe p r).0, inl refl)
Reached-IsSafe p (fails message r) = Reached-IsSafe p r

-- However the dialog is used while the tables and sessions stay as they are, every request that it
-- makes is valid: a transfer of the order's session to an available table, or a merge of it into the
-- session that is open at a table that is not available, and in both cases another table than the
-- order's own. An option of one mode is never used in the other.
pub Reached-calls : (p : MoveProps) {d : MoveDialog} → Reached p d → All (IsValid p) d.calls
Reached-calls p r = (Reached-IsSafe p r).0
