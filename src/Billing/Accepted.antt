-- ===== src/Billing/Accepted.antt =====
-- What the bill's buttons ask for against what the service accepts.
use why_not_grace_pos.Prelude.{
  String, Bool, false, not, ◌&&◌, ◌==◌, eq_iff, ◌≡◌, refl, sym, inl, inr, Option, some, List, [],
  ◌∷◌, find, All, is_set, arith,
}
use mathlib.Core.Path.{subst}
use why_not_grace_pos.Access.{UserRole}
use why_not_grace_pos.Billing.{BillStatus}
use why_not_grace_pos.Billing.Items.{
  BillItemOut, BillLines, voids, comps, LineCall, removes, uncomps, offers_removal, offers_uncomp,
  is_open,
}
use why_not_grace_pos.Billing.Lines.{Among, IsAllowed}
use why_not_grace_pos.Billing.Backend.{
  Toggles, has, is_closed, void_authority, require_comp_authority, void_bill, mark_bill_nc,
  void_bill_item, comp_bill_item, uncomp_bill_item, accepts,
}
use why_not_grace_pos.Billing.Whole.{shows_void, shows_no_charge}

-- A time that is there is not an empty text.
abbrev pub IsTime : Option String → Type 0
IsTime o = is_set o ≡ has o

abbrev pub IsTimed : BillLines → Type 0
IsTimed b =
    IsTime b.nc_at
    × All (λ i. IsTime (BillItemOut.voided_at i) × IsTime (BillItemOut.comped_at i)) b.items

-- No two items share an id.
abbrev pub IsDistinct : List BillItemOut → Type 0
IsDistinct [] = Unit
IsDistinct (x ∷ xs) = All (λ i. (BillItemOut.id x == BillItemOut.id i) ≡ false) xs × IsDistinct xs

All-Among :
    (P : BillItemOut → Type 0) (i : BillItemOut) (xs : List BillItemOut)
    → Among i xs
    → All P xs
    → P i
All-Among P i [] a h = absurd a
All-Among P i (x ∷ xs) (inl e) (h, hs) = subst P (sym e) h
All-Among P i (x ∷ xs) (inr a) (h, hs) = All-Among P i xs a hs

find-id :
    (i : BillItemOut) (xs : List BillItemOut)
    → Among i xs
    → IsDistinct xs
    → find (λ x. BillItemOut.id x == i.id) xs ≡ some i
find-id i [] a h = absurd a
find-id i (x ∷ xs) (inl e) (h, hs) =
    subst (λ y. find (λ z. BillItemOut.id z == y.id) (x ∷ xs) ≡ some y) (sym e)
      (rw ((eq_iff x.id x.id).1 refl) refl)
find-id i (x ∷ xs) (inr a) (h, hs) =
    rw (All-Among (λ y. (x.id == BillItemOut.id y) ≡ false) i xs a h) (find-id i xs a hs)

module _ (strip : String → String) (t : Toggles) (role : UserRole) where
  -- What the toggles of the business ask of a call: a manager, and a reason.
  abbrev pub authority : LineCall → Bool
  authority (removes voids bill_id id reason) = void_authority strip t role reason
  authority (removes comps bill_id id reason) = require_comp_authority strip t role reason
  authority (uncomps bill_id id) = require_comp_authority strip t role (some "uncomp")

  is_open-is_closed : (b : BillLines) → is_open b ≡ not (is_closed b.status)
  unfolding is_open
  is_open-is_closed b = ground arith

  pub IsAllowed-accepts :
      (b : BillLines)
      → IsTimed b
      → IsDistinct b.items
      → (call : LineCall) → IsAllowed b call
      → accepts strip t role b call ≡ authority call
  unfolding accepts void_bill_item comp_bill_item uncomp_bill_item offers_removal offers_uncomp
  IsAllowed-accepts b (n, h) d (removes voids c id reason) (e, (i, a, k, o)) =
      let (v, w) =
        All-Among (λ y. IsTime (BillItemOut.voided_at y) × IsTime (BillItemOut.comped_at y)) i
          b.items a h in
      rw (sym k, find-id i b.items a d) (ground (arith, is_open-is_closed b))
  IsAllowed-accepts b (n, h) d (removes comps c id reason) (e, (i, a, k, o)) =
      let (v, w) =
        All-Among (λ y. IsTime (BillItemOut.voided_at y) × IsTime (BillItemOut.comped_at y)) i
          b.items a h in
      rw (sym k, find-id i b.items a d) (ground (arith, is_open-is_closed b))
  IsAllowed-accepts b (n, h) d (uncomps c id) (e, (i, a, k, o)) =
      let (v, w) =
        All-Among (λ y. IsTime (BillItemOut.voided_at y) × IsTime (BillItemOut.comped_at y)) i
          b.items a h in
      rw (sym k, find-id i b.items a d) (ground (arith, is_open-is_closed b))

  -- The button that voids a bill is shown exactly when the service has nothing but the toggles to ask;
  -- and while the button for no charge is shown, the same holds of marking the bill. The time of the mark is
  -- taken not to be an empty text.
  pub shows_void-void_bill :
      (reason : Option String) (status : BillStatus) (nc_at : Option String) (has_payment : Bool)
      → IsTime nc_at
      → (void_bill strip t role reason status
          ≡ (shows_void status && void_authority strip t role reason))
        × ((shows_no_charge status nc_at has_payment
              && mark_bill_nc strip t role reason status nc_at has_payment)
            ≡ (shows_no_charge status nc_at has_payment
                && require_comp_authority strip t role reason))
  unfolding void_bill mark_bill_nc shows_void shows_no_charge
  shows_void-void_bill reason status nc_at has_payment h = (ground arith, ground arith)
