-- ===== src/MenuEditor/Saving.antt =====
-- What a save sends of the fields.
use why_not_grace_pos.Prelude.{
  String, true, not, ◌&&◌, ◌||◌, Option, none, some, ◌≡◌, refl, ap, ◌∙◌, Number, is_truthy, or_none,
  trim,
}
use why_not_grace_pos.Menu.{MenuItemOut}
use why_not_grace_pos.MenuEditor.{
  EditorProps, ItemEditor, MenuItemUpdate, updates, form_of, render, id_of_item, same_id, stock_of,
  stock_text, or_text, can_submit, item_update, item_request, handle_submit,
}

-- A text that may be missing, as the dialog stores it: without white space at its ends, and not empty.
abbrev pub IsTidy : Option String → Type 0
IsTidy o = or_none (trim (or_text o "")) ≡ o

-- The dish's own values.
abbrev pub values_of {ℓ} : {N : Type ℓ} → MenuItemOut N → MenuItemUpdate N
values_of i = record {
  name = i.name;
  description = i.description;
  base_price = i.base_price;
  category_id = i.category_id;
  is_veg = i.is_veg;
  image_url = i.image_url;
  is_active = i.is_active;
  is_sold_out = i.is_sold_out;
  is_todays_special = i.is_todays_special;
  is_specialty = i.is_specialty;
  stock_quantity = i.stock_quantity;
  kitchen_station = i.kitchen_station;
}

module _ {ℓ} {N : Type ℓ} ⦃n : Number N⦄ (number_of : String → N) (text_of : N → String) where
  stock_of-stock_text :
      ((x : N) → number_of (text_of x) ≡ x)
      → ((x : N) → is_truthy (trim (text_of x)) ≡ true)
      → (o : Option N) → stock_of number_of (stock_text text_of o) ≡ o
  unfolding stock_of trim
  stock_of-stock_text h g none = refl
  stock_of-stock_text h g (some q) = rw (g q, h q) refl

  item_update-form_of :
      ((x : N) → number_of (text_of x) ≡ x)
      → ((x : N) → is_truthy (trim (text_of x)) ≡ true)
      → (p : EditorProps N) (i : MenuItemOut N) → trim i.name ≡ i.name
      → IsTidy i.description × IsTidy i.image_url × IsTidy i.kitchen_station
      → item_update number_of (form_of text_of p (some i)) ≡ values_of i
  unfolding item_update form_of
  item_update-form_of h g p i t (d, u, k) =
      rw (t, d, u, k, h i.base_price, stock_of-stock_text h g i.stock_quantity) refl

  can_submit-form_of :
      ((x : N) → number_of (text_of x) ≡ x)
      → (p : EditorProps N) (i : MenuItemOut N) → trim i.name ≡ i.name
      → is_truthy i.name ≡ true
      → is_truthy i.category_id ≡ true
      → n.lt (n.of_ℕ 0) i.base_price ≡ true
      → can_submit number_of (form_of text_of p (some i)) ≡ true
  unfolding can_submit form_of
  can_submit-form_of h p i t nm c pr = rw (t, nm, c, h i.base_price, pr) refl

  render-opened :
      (p : EditorProps N) (e : ItemEditor N)
      → (p.is_open && (not (same_id (id_of_item p.item) e.open_item_id) || not e.was_open)) ≡ true
      → (render text_of p e).form ≡ form_of text_of p p.item
  unfolding render
  render-opened p e h = rw (h) refl

  handle_submit-item :
      (required : String) (p : EditorProps N) (e : ItemEditor N) (i : MenuItemOut N)
      → p.item ≡ some i
      → can_submit number_of e.form ≡ true
      → (handle_submit number_of required p e).1
        ≡ some (updates i.id (item_update number_of e.form))
  unfolding handle_submit item_request
  handle_submit-item required p e i pi c = rw (c, pi) refl

  -- A dish whose name has no white space at its ends and is not empty, whose description, image and
  -- station are each missing or a text without white space at its ends that is not empty, that has a
  -- category and costs more than 0, is saved as it is when the dialog opens on it, or is given it in
  -- place of another, and the fields are left alone: one update of that dish goes out, with each value
  -- as it was. Numbers are taken to be read back from their texts, which are not blank.
  pub render-handle_submit :
      ((x : N) → number_of (text_of x) ≡ x)
      → ((x : N) → is_truthy (trim (text_of x)) ≡ true)
      → (required : String) (p : EditorProps N) (e : ItemEditor N) (i : MenuItemOut N)
      → p.item ≡ some i
      → (p.is_open && (not (same_id (id_of_item p.item) e.open_item_id) || not e.was_open)) ≡ true
      → trim i.name ≡ i.name
      → is_truthy i.name ≡ true
      → is_truthy i.category_id ≡ true
      → n.lt (n.of_ℕ 0) i.base_price ≡ true
      → IsTidy i.description × IsTidy i.image_url × IsTidy i.kitchen_station
      → (handle_submit number_of required p (render text_of p e)).1
        ≡ some (updates i.id (values_of i))
  render-handle_submit h g required p e i pi po t nm c pr tidy =
      let shown : (render text_of p e).form ≡ form_of text_of p (some i) =
        render-opened p e po ∙ ap (form_of text_of p) pi in
      handle_submit-item required p (render text_of p e) i pi
        (ap (can_submit number_of) shown ∙ can_submit-form_of h p i t nm c pr)
      ∙ ap (λ f. some (updates i.id (item_update number_of f))) shown
      ∙ ap (λ v. some (updates i.id v)) (item_update-form_of h g p i t tidy)
