-- ===== src/MenuEditor/Naming.antt =====
-- What a new dish is made of, after any work in the dialog.
use why_not_grace_pos.Prelude.{
  String, true, not, ◌&&◌, ◌||◌, Option, none, some, List, [], ◌∷◌, map, All, All-append, ◌≡◌, refl,
  inl, inr, ◌==◌, Number, is_truthy, trim, Bool-cases, arith,
}
use why_not_grace_pos.Menu.{MenuItemOut}
use why_not_grace_pos.MenuEditor.{
  DraftVariant, DraftOption, DraftOptionGroup, PartCreate, OptionGroupCreate, MenuItemCreate,
  ItemRequest, updates, creates, EditorProps, id_of_item, same_id, ItemForm, NewParts, ItemEditor,
  variant_create, option_create, group_create, can_submit, item_update, item_create, item_request,
  handle_submit, submit_failed, render,
}
use why_not_grace_pos.MenuEditor.Drafts.{
  handle_add_variant_draft, handle_add_group_draft, handle_add_option_draft, new_option,
  with_option, option_name,
}

-- What the user does while the dialog is open, and the backend's refusals.
pub data EditorEvent : Type 0 where
  types : ItemForm → NewParts → EditorEvent
  adds_variant adds_group : String → EditorEvent
  adds_option : String → String → EditorEvent
  saves : EditorEvent
  refused : String → EditorEvent

module _ {ℓ} {N : Type ℓ} ⦃n : Number N⦄ (number_of : String → N) (required : String) where
  unfoldable pub editor_step : EditorProps N → ItemEditor N → EditorEvent → ItemEditor N
  unfolding handle_submit submit_failed
  editor_step p e (types f parts) = record e { form = f; new = parts }
  editor_step p e (adds_variant key) = handle_add_variant_draft number_of key e
  editor_step p e (adds_group key) = handle_add_group_draft number_of key e
  editor_step p e (adds_option group key) = handle_add_option_draft number_of group key e
  editor_step p e saves = (handle_submit number_of required p e).0
  editor_step p e (refused message) = submit_failed message e

  unfoldable pub editor_run : EditorProps N → ItemEditor N → List EditorEvent → ItemEditor N
  unfolding editor_step
  editor_run p e [] = e
  editor_run p e (x ∷ xs) = editor_run p (editor_step p e x) xs

-- A text that was trimmed and is not empty.
abbrev pub IsName : String → Type 0
IsName s = (t : String) × (s ≡ trim t) × (is_truthy s ≡ true)

module _ {ℓ} {N : Type ℓ} where
  abbrev IsNamedGroup : DraftOptionGroup N → Type 0
  IsNamedGroup g = IsName g.name × All (λ o. IsName (DraftOption.name o)) g.options

  abbrev pub IsNamed : ItemEditor N → Type 0
  IsNamed e =
      All (λ v. IsName (DraftVariant.name v)) e.draft_variants × All IsNamedGroup e.draft_groups

  -- The same of what is sent, with the dish's own name and category.
  IsNamedCreate : MenuItemCreate N → Type 0
  IsNamedCreate r =
      IsName r.name
      × (is_truthy r.category_id ≡ true)
      × All (λ v. IsName (PartCreate.name v)) r.variants
      × All
          (λ g. IsName (OptionGroupCreate.name g) × All (λ o. IsName (PartCreate.name o)) g.options)
          r.option_groups

  pub IsNamedRequest : Option (ItemRequest N) → Type 0
  unfolding IsNamedCreate
  IsNamedRequest none = Unit
  IsNamedRequest (some (creates r)) = IsNamedCreate r
  IsNamedRequest (some (updates id u)) = IsName u.name

All-map {ℓ κ μ ν} :
    {A : Type ℓ} {B : Type κ} (P : A → Type μ) (Q : B → Type ν) (f : A → B)
    → ((x : A) → P x → Q (f x))
    → (xs : List A) → All P xs
    → All Q (map f xs)
All-map P Q f h [] a = tt
All-map P Q f h (x ∷ xs) (a, rest) = (h x a, All-map P Q f h xs rest)

module _ {ℓ} {N : Type ℓ} where
  with_option-IsNamedGroup :
      (group : String) (o : DraftOption N) (g : DraftOptionGroup N)
      → IsName o.name
      → IsNamedGroup g
      → IsNamedGroup (with_option group o g)
  with_option-IsNamedGroup group o g h (a, b) = elim (Bool-cases (g.key == group)) [
    | inl k ↦ rw (k) (a, All-append (λ o. IsName (DraftOption.name o)) g.options (o ∷ []) b (h, tt))
    | inr k ↦ rw (k) (a, b)
  ]

module _ {ℓ} {N : Type ℓ} ⦃n : Number N⦄ (number_of : String → N) (required : String) where
  option_name-IsName :
      (parts : NewParts) (group : String)
      → is_truthy (option_name parts group) ≡ true
      → IsName (option_name parts group)
  option_name-IsName parts group k = (_, refl, k)

  saved-IsNamed :
      (p : EditorProps N) (e : ItemEditor N)
      → IsNamed e
      → IsNamed (handle_submit number_of required p e).0
  unfolding handle_submit
  saved-IsNamed p e h = elim (Bool-cases (can_submit number_of e.form)) [
    | inl k ↦ rw (k, handle_submit) h
    | inr k ↦ rw (k, handle_submit) h
  ]

  editor_step-IsNamed :
      (p : EditorProps N) (e : ItemEditor N) (x : EditorEvent)
      → IsNamed e
      → IsNamed (editor_step number_of required p e x)
  unfolding editor_step handle_add_variant_draft handle_add_group_draft handle_add_option_draft
      handle_submit submit_failed
  editor_step-IsNamed p e (types f parts) h = h
  editor_step-IsNamed p e (adds_variant key) (v, g) =
      elim (Bool-cases (is_truthy (trim e.new.variant_name))) [
        | inl k ↦ rw (k) (
          All-append (λ v. IsName (DraftVariant.name v)) e.draft_variants _ v
              ((e.new.variant_name, refl, k), tt),
          g,
        )
        | inr k ↦ rw (k) (v, g)
      ]
  editor_step-IsNamed p e (adds_group key) (v, g) =
      elim (Bool-cases (is_truthy (trim e.new.group_name))) [
        | inl k ↦
            rw (k) (
              v,
              All-append IsNamedGroup e.draft_groups _ g (((e.new.group_name, refl, k), tt), tt),
            )
        | inr k ↦ rw (k) (v, g)
      ]
  editor_step-IsNamed p e (adds_option group key) (v, g) =
      elim (Bool-cases (is_truthy (option_name e.new group))) [
        | inl k ↦ rw (k) (
          v,
          All-map IsNamedGroup IsNamedGroup
              (with_option group (new_option number_of group key e.new))
              (λ d.
                with_option-IsNamedGroup group (new_option number_of group key e.new) d
                  (option_name-IsName e.new group k))
              e.draft_groups g,
        )
        | inr k ↦ rw (k) (v, g)
      ]
  editor_step-IsNamed p e saves h = saved-IsNamed p e h
  editor_step-IsNamed p e (refused message) h = h

  editor_run-IsNamed :
      (p : EditorProps N) (e : ItemEditor N) (xs : List EditorEvent)
      → IsNamed e
      → IsNamed (editor_run number_of required p e xs)
  unfolding editor_run
  editor_run-IsNamed p e [] h = h
  editor_run-IsNamed p e (x ∷ xs) h =
      editor_run-IsNamed p (editor_step number_of required p e x) xs (editor_step-IsNamed p e x h)

  item_create-IsNamed :
      (e : ItemEditor N)
      → can_submit number_of e.form ≡ true
      → IsNamed e
      → IsNamedCreate (item_create number_of e)
  unfolding IsNamedCreate item_create can_submit
  item_create-IsNamed e c (v, g) = (
    (e.form.name, refl, ground arith),
    ground arith,
    All-map _ _ variant_create (λ v h. h) e.draft_variants v,
    All-map _ _ group_create (λ g (a, o). (a, All-map _ _ option_create (λ o h. h) g.options o))
        e.draft_groups g,
  )

  item_request-IsNamed :
      (o : Option (MenuItemOut N)) (e : ItemEditor N)
      → can_submit number_of e.form ≡ true
      → IsNamed e
      → IsNamedRequest (some (item_request number_of o e))
  unfolding IsNamedRequest item_request item_update can_submit
  item_request-IsNamed none e c h = item_create-IsNamed e c h
  item_request-IsNamed (some i) e c h = (e.form.name, refl, ground arith)

  handle_submit-IsNamed :
      (p : EditorProps N) (e : ItemEditor N)
      → IsNamed e
      → IsNamedRequest (handle_submit number_of required p e).1
  unfolding IsNamedRequest handle_submit
  handle_submit-IsNamed p e h = elim (Bool-cases (can_submit number_of e.form)) [
    | inl k ↦ rw (k) (item_request-IsNamed p.item e k h)
    | inr k ↦ rw (k) tt
  ]

  render-IsNamed :
      (text_of : N → String) (p : EditorProps N) (e : ItemEditor N)
      → (p.is_open && (not (same_id (id_of_item p.item) e.open_item_id) || not e.was_open)) ≡ true
      → IsNamed (render text_of p e)
  unfolding render
  render-IsNamed text_of p e h = rw (h) (tt, tt)

  -- Whatever is typed, added as a draft, saved and refused after the dialog has opened on a dish or on a
  -- new one: a save that sends a new dish gives it a category, and to the dish, to each of its
  -- variants, of its option groups and of their options a name that is a trimmed text and not empty; a
  -- save that sends a change gives the dish such a name, too.
  pub handle_submit-IsNamedRequest :
      (text_of : N → String) (p : EditorProps N) (e : ItemEditor N) (xs : List EditorEvent)
      → (p.is_open && (not (same_id (id_of_item p.item) e.open_item_id) || not e.was_open)) ≡ true
      → IsNamedRequest
          (handle_submit number_of required p
            (editor_run number_of required p (render text_of p e) xs)).1
  handle_submit-IsNamedRequest text_of p e xs h =
      handle_submit-IsNamed p (editor_run number_of required p (render text_of p e) xs)
        (editor_run-IsNamed p (render text_of p e) xs (render-IsNamed text_of p e h))
