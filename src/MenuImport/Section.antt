-- ===== src/MenuImport/Section.antt =====
-- The section with its photographs, its draft and its two requests. A button is off while its own
-- request is under way.
use why_not_grace_pos.Prelude.{
  ℕ, ◌+◌, ◌≤◌, String, Bool, true, false, ◌≡◌, refl, ◌∙◌, Option, none, some, List, [], ◌∷◌, ◌++◌,
  tally, tally-append, every, every-append, Number, if◌then◌else◌, arith, Bool-cases, inl, inr,
}
use why_not_grace_pos.MenuImport.{MenuImportCategoryDraft, DraftEdit, edited}

pub data ImportCall {ℓ κ} (F : Type ℓ) (N : Type κ) : Type (ℓ ⊔ κ) where
  extracts : List F → ImportCall F N
  publishes : List (MenuImportCategoryDraft N) → ImportCall F N

pub record ImportSection {ℓ κ} (F : Type ℓ) (N : Type κ) : Type (ℓ ⊔ κ) where
  pub files : List F
  pub draft : Option (List (MenuImportCategoryDraft N))
  pub error : Option String
  pub extracting : Bool
  pub publishing : Bool
  pub calls : List (ImportCall F N)

pub data ImportEvent {ℓ κ} (F : Type ℓ) (N : Type κ) : Type (ℓ ⊔ κ) where
  chooses : List F → ImportEvent F N
  presses_extract presses_publish starts_over published : ImportEvent F N
  extracted : List (MenuImportCategoryDraft N) → ImportEvent F N
  extract_failed publish_failed : String → ImportEvent F N
  edits : DraftEdit N → ImportEvent F N

module _ {ℓ κ} {F : Type ℓ} {N : Type κ} where
  abbrev pub new_section : ImportSection F N
  new_section = record {
    files = [];
    draft = none;
    error = none;
    extracting = false;
    publishing = false;
    calls = [];
  }

  unfoldable pub handle_extract : List F → ImportSection F N → ImportSection F N
  handle_extract [] s = record s { error = some "Choose at least one photo of the menu card." }
  handle_extract (f ∷ fs) s = record s {
    error = none;
    extracting = true;
    calls = s.calls ++ (extracts (f ∷ fs) ∷ []);
  }

  unfoldable pub handle_publish :
      Option (List (MenuImportCategoryDraft N)) → ImportSection F N → ImportSection F N
  handle_publish none s = s
  handle_publish (some d) s = record s {
    error = none;
    publishing = true;
    calls = s.calls ++ (publishes d ∷ []);
  }

  abbrev pub is_draft : ImportSection F N → Bool
  is_draft s = has s.draft
    where
      has : Option (List (MenuImportCategoryDraft N)) → Bool
      has none = false
      has (some d) = true

abbrev pub edit_draft {κ} :
    {N : Type κ} ⦃n : Number N⦄
    → (String → N)
    → DraftEdit N
    → Option (List (MenuImportCategoryDraft N))
    → Option (List (MenuImportCategoryDraft N))
edit_draft number_of e none = none
edit_draft number_of e (some d) = some (edited number_of e d)

module _ {ℓ κ} {F : Type ℓ} {N : Type κ} ⦃n : Number N⦄ (number_of : String → N) where
  unfoldable pub import_step : ImportSection F N → ImportEvent F N → ImportSection F N
  unfolding handle_extract handle_publish
  import_step s (chooses files) = if is_draft s then s else record s { files = files }
  import_step s presses_extract =
      if is_draft s then s else if s.extracting then s else handle_extract s.files s
  import_step s (extracted d) = record s { draft = some d; extracting = false }
  import_step s (extract_failed message) = record s { error = some message; extracting = false }
  import_step s (edits e) = record s { draft = edit_draft number_of e s.draft }
  import_step s presses_publish = if s.publishing then s else handle_publish s.draft s
  import_step s published = record s { draft = none; files = []; publishing = false }
  import_step s (publish_failed message) = record s { error = some message; publishing = false }
  import_step s starts_over = if is_draft s then record s { draft = none; files = [] } else s

  unfoldable pub import_run : ImportSection F N → List (ImportEvent F N) → ImportSection F N
  unfolding import_step
  import_run s [] = s
  import_run s (e ∷ es) = import_run (import_step s e) es

module _ {ℓ κ} {F : Type ℓ} {N : Type κ} where
  abbrev pub is_publish : ImportCall F N → Bool
  is_publish (extracts files) = false
  is_publish (publishes d) = true

  -- Whether the event answers a publication.
  abbrev pub is_answer : ImportEvent F N → Bool
  is_answer published = true
  is_answer (publish_failed message) = true
  is_answer _ = false

  abbrev pub has_photo : ImportCall F N → Bool
  has_photo (extracts []) = false
  has_photo _ = true

  -- The publications that were asked for, and the one that may be asked for now.
  budget : ImportSection F N → ℕ
  budget s = tally is_publish s.calls + (if s.publishing then 0 else 1)

  handle_extract-budget :
      (files : List F) (s : ImportSection F N)
      → (budget (handle_extract files s) ≡ budget s)
        × (every has_photo (handle_extract files s).calls ≡ every has_photo s.calls)
  unfolding handle_extract budget
  handle_extract-budget [] s = (refl, refl)
  handle_extract-budget (f ∷ fs) s = (
    ground (arith, tally-append is_publish s.calls (extracts (f ∷ fs) ∷ [])),
    ground (arith, every-append has_photo s.calls (extracts (f ∷ fs) ∷ [])),
  )

  handle_publish-budget :
      (d : Option (List (MenuImportCategoryDraft N))) (s : ImportSection F N)
      → s.publishing ≡ false
      → (budget (handle_publish d s) ≡ budget s)
        × (every has_photo (handle_publish d s).calls ≡ every has_photo s.calls)
  unfolding handle_publish budget
  handle_publish-budget none s h = (refl, refl)
  handle_publish-budget (some d) s h = (
    ground (arith, tally-append is_publish s.calls (publishes d ∷ [])),
    ground (arith, every-append has_photo s.calls (publishes d ∷ [])),
  )

module _ {ℓ κ} {F : Type ℓ} {N : Type κ} ⦃n : Number N⦄ (number_of : String → N) where
  -- What a step may do to the calls.
  IsSound : ImportSection F N → ImportEvent F N → Type 0
  unfolding budget
  IsSound s e =
      (budget (import_step number_of s e) ≤ budget s + (if is_answer e then 1 else 0))
      × (every has_photo (import_step number_of s e).calls ≡ every has_photo s.calls)

  import_step-IsSound : (s : ImportSection F N) (e : ImportEvent F N) → IsSound s e
  unfolding IsSound import_step budget
  import_step-IsSound s (chooses files) = elim (Bool-cases (is_draft s)) [
    | inl k ↦ rw (k) (omega arith, refl)
    | inr k ↦ rw (k) (omega arith, refl)
  ]
  import_step-IsSound s presses_extract =
      ground
        (arith, handle_extract-budget s.files s, Bool-cases (is_draft s), Bool-cases s.extracting)
  import_step-IsSound s (extracted d) = (omega arith, refl)
  import_step-IsSound s (extract_failed message) = (omega arith, refl)
  import_step-IsSound s (edits e) = (omega arith, refl)
  import_step-IsSound s presses_publish =
      ground (arith, handle_publish-budget s.draft s, Bool-cases s.publishing)
  import_step-IsSound s published = ground arith
  import_step-IsSound s (publish_failed message) = ground arith
  import_step-IsSound s starts_over = elim (Bool-cases (is_draft s)) [
    | inl k ↦ rw (k) (omega arith, refl)
    | inr k ↦ rw (k) (omega arith, refl)
  ]

  import_run-IsSound :
      (s : ImportSection F N) (es : List (ImportEvent F N))
      → (budget (import_run number_of s es) ≤ budget s + tally is_answer es)
        × (every has_photo (import_run number_of s es).calls ≡ every has_photo s.calls)
  unfolding import_run IsSound
  import_run-IsSound s [] = (omega arith, refl)
  import_run-IsSound s (e ∷ es) =
      let (a, b) = import_step-IsSound s e in
      let (c, d) = import_run-IsSound (import_step number_of s e) es in (omega arith, d ∙ b)

  -- Whatever is chosen, extracted, edited and answered: no photographs are sent for reading but at
  -- least one, and a menu is published at most once more than publications were answered, so no second
  -- one goes out while one is under way, whatever became of the draft meanwhile.
  pub import_run-calls :
      (es : List (ImportEvent F N))
      → (every has_photo (import_run number_of new_section es).calls ≡ true)
        × (tally is_publish (import_run number_of new_section es).calls ≤ tally is_answer es + 1)
  unfolding budget
  import_run-calls es = let (a, b) = import_run-IsSound new_section es in (b, ground arith)
