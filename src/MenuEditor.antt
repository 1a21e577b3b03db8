-- ===== src/MenuEditor.antt =====
-- Making and changing a dish: frontend/src/features/menu/components/MenuItemDialog.tsx. `Number(text)`
-- and `String(number)` are the language's own conversions, and arguments here; so are the keys that
-- crypto.randomUUID() gives to drafts.
pub mod Drafts
pub mod Live
pub mod Naming
pub mod Saving
mod Tests
use why_not_grace_pos.Prelude.{
  String, Bool, true, false, not, ◌&&◌, ◌||◌, ◌==◌, Option, none, some, List, [], ◌∷◌, map, Number,
  is_truthy, or_none, trim, if◌then◌else◌,
}
use why_not_grace_pos.Menu.{MenuItemOut}

pub record MenuCategoryOut : Type 0 where
  pub id : String
  pub name : String

pub record DraftVariant {ℓ} (N : Type ℓ) : Type ℓ where
  pub key : String
  pub name : String
  pub price_delta : N

pub record DraftOption {ℓ} (N : Type ℓ) : Type ℓ where
  pub key : String
  pub name : String
  pub price_delta : N

pub record DraftOptionGroup {ℓ} (N : Type ℓ) : Type ℓ where
  pub key : String
  pub name : String
  pub is_required : Bool
  pub allow_multiple : Bool
  pub options : List (DraftOption N)

pub record EditorProps {ℓ} (N : Type ℓ) : Type ℓ where
  pub is_open : Bool
  pub item : Option (MenuItemOut N)
  pub categories : List MenuCategoryOut
  pub default_category_id : Option String

-- The fields of the dish, as they are typed.
pub record ItemForm : Type 0 where
  pub name : String
  pub description : String
  pub base_price : String
  pub category_id : String
  pub is_veg : Bool
  pub image_url : String
  pub is_active : Bool
  pub is_sold_out : Bool
  pub is_todays_special : Bool
  pub is_specialty : Bool
  pub stock_quantity : String
  pub kitchen_station : String

-- The fields under the lists: a variant, a group, and by group an option.
pub record NewParts : Type 0 where
  pub variant_name : String
  pub variant_delta : String
  pub group_name : String
  pub group_required : Bool
  pub group_multiple : Bool
  pub option_name_by_group : String → Option String
  pub option_delta_by_group : String → Option String

pub record ItemEditor {ℓ} (N : Type ℓ) : Type ℓ where
  pub form : ItemForm
  pub error : Option String
  pub draft_variants : List (DraftVariant N)
  pub draft_groups : List (DraftOptionGroup N)
  pub new : NewParts
  pub open_item_id : Option String
  pub was_open : Bool

-- `a ?? b` over text.
abbrev pub or_text : Option String → String → String
or_text none s = s
or_text (some t) s = t

abbrev pub same_id : Option String → Option String → Bool
same_id none none = true
same_id none (some t) = false
same_id (some s) none = false
same_id (some s) (some t) = s == t

abbrev first_id : List MenuCategoryOut → String
first_id [] = ""
first_id (c ∷ cs) = c.id

abbrev no_parts : NewParts
no_parts = record {
  variant_name = "";
  variant_delta = "0";
  group_name = "";
  group_required = false;
  group_multiple = false;
  option_name_by_group = λ k. none;
  option_delta_by_group = λ k. none;
}

module _ {ℓ} {N : Type ℓ} where
  abbrev pub id_of_item : Option (MenuItemOut N) → Option String
  id_of_item none = none
  id_of_item (some i) = some i.id

module _ {ℓ} {N : Type ℓ} (text_of : N → String) where
  -- `item.stock_quantity != null ? String(item.stock_quantity) : ""`.
  abbrev pub stock_text : Option N → String
  stock_text none = ""
  stock_text (some q) = text_of q

  -- What the fields start from: the dish's values, or those of a new dish.
  unfoldable pub form_of : EditorProps N → Option (MenuItemOut N) → ItemForm
  form_of p none = record {
    name = "";
    description = "";
    base_price = "";
    category_id = or_text p.default_category_id (first_id p.categories);
    is_veg = true;
    image_url = "";
    is_active = true;
    is_sold_out = false;
    is_todays_special = false;
    is_specialty = false;
    stock_quantity = "";
    kitchen_station = "";
  }
  form_of p (some i) = record {
    name = i.name;
    description = or_text i.description "";
    base_price = text_of i.base_price;
    category_id = i.category_id;
    is_veg = i.is_veg;
    image_url = or_text i.image_url "";
    is_active = i.is_active;
    is_sold_out = i.is_sold_out;
    is_todays_special = i.is_todays_special;
    is_specialty = i.is_specialty;
    stock_quantity = stock_text i.stock_quantity;
    kitchen_station = or_text i.kitchen_station "";
  }

  unfoldable pub mount : EditorProps N → ItemEditor N
  unfolding form_of
  mount p = record {
    form = form_of p p.item;
    error = none;
    draft_variants = [];
    draft_groups = [];
    new = no_parts;
    open_item_id = id_of_item p.item;
    was_open = p.is_open;
  }

  -- What a render sets: the fields again when the dialog opens or is given another dish.
  unfoldable pub render : EditorProps N → ItemEditor N → ItemEditor N
  unfolding form_of
  render p e =
      if p.is_open && (not (same_id (id_of_item p.item) e.open_item_id) || not e.was_open)
      then record e {
        form = form_of p p.item;
        error = none;
        draft_variants = [];
        draft_groups = [];
        open_item_id = id_of_item p.item;
        was_open = p.is_open;
      }
      else record e { was_open = p.is_open }

-- What is sent for a new dish.
pub record PartCreate {ℓ} (N : Type ℓ) : Type ℓ where
  pub name : String
  pub price_delta : N

pub record OptionGroupCreate {ℓ} (N : Type ℓ) : Type ℓ where
  pub name : String
  pub is_required : Bool
  pub allow_multiple : Bool
  pub options : List (PartCreate N)

pub record MenuItemCreate {ℓ} (N : Type ℓ) : Type ℓ where
  pub name : String
  pub description : Option String
  pub base_price : N
  pub category_id : String
  pub is_veg : Bool
  pub image_url : Option String
  pub stock_quantity : Option N
  pub kitchen_station : Option String
  pub variants : List (PartCreate N)
  pub option_groups : List (OptionGroupCreate N)

-- What is sent for a dish that is there; an empty field is `null`.
pub record MenuItemUpdate {ℓ} (N : Type ℓ) : Type ℓ where
  pub name : String
  pub description : Option String
  pub base_price : N
  pub category_id : String
  pub is_veg : Bool
  pub image_url : Option String
  pub is_active : Bool
  pub is_sold_out : Bool
  pub is_todays_special : Bool
  pub is_specialty : Bool
  pub stock_quantity : Option N
  pub kitchen_station : Option String

pub data ItemRequest {ℓ} (N : Type ℓ) : Type ℓ where
  updates : String → MenuItemUpdate N → ItemRequest N
  creates : MenuItemCreate N → ItemRequest N

module _ {ℓ} {N : Type ℓ} where
  abbrev pub variant_create : DraftVariant N → PartCreate N
  variant_create v = record { name = v.name; price_delta = v.price_delta }

  abbrev pub option_create : DraftOption N → PartCreate N
  option_create o = record { name = o.name; price_delta = o.price_delta }

  abbrev pub group_create : DraftOptionGroup N → OptionGroupCreate N
  group_create g = record {
    name = g.name;
    is_required = g.is_required;
    allow_multiple = g.allow_multiple;
    options = map option_create g.options;
  }

module _ {ℓ} {N : Type ℓ} ⦃n : Number N⦄ (number_of : String → N) where
  -- An empty field means that no stock is counted.
  unfoldable pub stock_of : String → Option N
  stock_of s = if not (is_truthy (trim s)) then none else some (number_of s)

  unfoldable pub can_submit : ItemForm → Bool
  can_submit f =
      is_truthy (trim f.name) && is_truthy f.category_id && n.lt (n.of_ℕ 0) (number_of f.base_price)

  unfoldable pub item_update : ItemForm → MenuItemUpdate N
  unfolding stock_of
  item_update f = record {
    name = trim f.name;
    description = or_none (trim f.description);
    base_price = number_of f.base_price;
    category_id = f.category_id;
    is_veg = f.is_veg;
    image_url = or_none (trim f.image_url);
    is_active = f.is_active;
    is_sold_out = f.is_sold_out;
    is_todays_special = f.is_todays_special;
    is_specialty = f.is_specialty;
    stock_quantity = stock_of f.stock_quantity;
    kitchen_station = or_none (trim f.kitchen_station);
  }

  unfoldable pub item_create : ItemEditor N → MenuItemCreate N
  unfolding stock_of
  item_create e = record {
    name = trim e.form.name;
    description = or_none (trim e.form.description);
    base_price = number_of e.form.base_price;
    category_id = e.form.category_id;
    is_veg = e.form.is_veg;
    image_url = or_none (trim e.form.image_url);
    stock_quantity = stock_of e.form.stock_quantity;
    kitchen_station = or_none (trim e.form.kitchen_station);
    variants = map variant_create e.draft_variants;
    option_groups = map group_create e.draft_groups;
  }

  -- The request of a dish that is there, or of a new one.
  unfoldable pub item_request : Option (MenuItemOut N) → ItemEditor N → ItemRequest N
  unfolding item_update item_create
  item_request none e = creates (item_create e)
  item_request (some i) e = updates i.id (item_update e.form)

  -- `handleSubmit` up to its `await`, with the message about fields that are missing.
  unfoldable pub handle_submit :
      String → EditorProps N → ItemEditor N → ItemEditor N × Option (ItemRequest N)
  unfolding can_submit item_request
  handle_submit required p e =
      if not (can_submit e.form)
      then (record e { error = some required }, none)
      else (record e { error = none }, some (item_request p.item e))

module _ {ℓ} {N : Type ℓ} where
  -- The backend's refusal is shown, and the dialog stays open.
  unfoldable pub submit_failed : String → ItemEditor N → ItemEditor N
  submit_failed message e = record e { error = some message }

  -- `handleDelete`, with the answer to the question that it asks.
  unfoldable pub handle_delete : Bool → EditorProps N → Option String
  handle_delete confirmed p = if confirmed then id_of_item p.item else none
