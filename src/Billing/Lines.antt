-- ===== src/Billing/Lines.antt =====
-- What the list of a bill's lines asks the backend for.
use why_not_grace_pos.Prelude.{
  String, Bool, true, ◌==◌, ◌≡◌, ◌⊎◌, inl, inr, refl, Option, none, some, List, [], ◌∷◌, find, All,
  All-append, Bool-cases, or_none, trim, arith,
}
use why_not_grace_pos.Billing.Items.{
  BillItemOut, BillLines, Kind, PendingAction, LineCall, removes, uncomps, ItemsList,
  offers_removal, offers_uncomp, row_of, press_removal, press_uncomp, submit_pending, LineEvent,
  presses, undoes, types_reason, submits, cancels_row, done, refused, items_step,
}

abbrev pub Among : BillItemOut → List BillItemOut → Type 0
Among i [] = ⊥
Among i (x ∷ xs) = (i ≡ x) ⊎ Among i xs

find-Among :
    (p : BillItemOut → Bool) (i : BillItemOut) (xs : List BillItemOut)
    → find p xs ≡ some i
    → Among i xs
find-Among p i [] h = ground arith
find-Among p i (x ∷ xs) h = ground (arith, find-Among p i xs)

-- An item of the bill, with this id, of which the button is shown.
abbrev pub IsRemovable : BillLines → String → Type 0
IsRemovable b id = (i : BillItemOut) × Among i b.items × (i.id ≡ id) × (offers_removal b i ≡ true)

abbrev pub IsRestorable : BillLines → String → Type 0
IsRestorable b id = (i : BillItemOut) × Among i b.items × (i.id ≡ id) × (offers_uncomp b i ≡ true)

abbrev pub IsAllowed : BillLines → LineCall → Type 0
IsAllowed b (removes kind bill_id id reason) = (bill_id ≡ b.id) × IsRemovable b id
IsAllowed b (uncomps bill_id id) = (bill_id ≡ b.id) × IsRestorable b id

abbrev pub IsAsked : BillLines → Option PendingAction → Type 0
IsAsked b none = Unit
IsAsked b (some p) = IsRemovable b p.item_id

abbrev pub IsSound : BillLines → ItemsList → Type 0
IsSound b l = All (IsAllowed b) l.calls × IsAsked b l.pending

row_of-Among :
    (b : BillLines) (id : String) (l : ItemsList) (i : BillItemOut)
    → row_of b id l ≡ some i
    → Among i b.items
row_of-Among b id l i h = ground (arith, find-Among (λ i. BillItemOut.id i == id) i b.items)

press_removal-IsSound :
    (kind : Kind) (b : BillLines) (o : Option BillItemOut) (l : ItemsList)
    → ((i : BillItemOut) → o ≡ some i → Among i b.items)
    → IsSound b l
    → IsSound b (press_removal kind b o l)
unfolding press_removal
press_removal-IsSound kind b none l m h = h
press_removal-IsSound kind b (some i) l m (c, p) = elim (Bool-cases (offers_removal b i)) [
  | inl k ↦ rw (k) (c, (i, m i refl, refl, k))
  | inr k ↦ rw (k) (c, p)
]

press_uncomp-IsSound :
    (b : BillLines) (o : Option BillItemOut) (l : ItemsList)
    → ((i : BillItemOut) → o ≡ some i → Among i b.items)
    → IsSound b l
    → IsSound b (press_uncomp b o l)
unfolding press_uncomp
press_uncomp-IsSound b none l m h = h
press_uncomp-IsSound b (some i) l m (c, p) = elim (Bool-cases (offers_uncomp b i)) [
  | inl k ↦ rw (k) (
    All-append (IsAllowed b) l.calls (uncomps b.id i.id ∷ []) c
        ((refl, (i, m i refl, refl, k)), tt),
    p,
  )
  | inr k ↦ rw (k) (c, p)
]

submit_pending-IsSound :
    (b : BillLines) (o : Option PendingAction) (l : ItemsList)
    → IsAsked b o
    → IsSound b l
    → IsSound b (submit_pending b o l)
unfolding submit_pending
submit_pending-IsSound b none l a h = h
submit_pending-IsSound b (some q) l a (c, p) = (
  All-append (IsAllowed b) l.calls (removes q.kind b.id q.item_id (or_none (trim l.reason)) ∷ []) c
      ((refl, a), tt),
  p,
)

pub items_step-IsSound :
    (b : BillLines) (l : ItemsList) (x : LineEvent) → IsSound b l → IsSound b (items_step b l x)
unfolding items_step
items_step-IsSound b l (presses kind id) h =
    press_removal-IsSound kind b (row_of b id l) l (row_of-Among b id l) h
items_step-IsSound b l (undoes id) h =
    press_uncomp-IsSound b (row_of b id l) l (row_of-Among b id l) h
items_step-IsSound b l (types_reason s) h = h
items_step-IsSound b l submits h = submit_pending-IsSound b l.pending l h.1 h
items_step-IsSound b l cancels_row h = (h.0, tt)
items_step-IsSound b l done h = (h.0, tt)
items_step-IsSound b l (refused message) h = h
