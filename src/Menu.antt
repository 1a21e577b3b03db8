-- ===== src/Menu.antt =====
-- The menu as the backend sends it and frontend/src/api/normalize.ts completes it: the schemas of
-- frontend/src/types/api.ts, with the lists that are always there afterwards. `N` is the type of
-- numbers, and only fields that some part of the client reads by itself have a use here.
use why_not_grace_pos.Prelude.{String, Bool, Option, List}

pub record MenuVariantOut {ℓ} (N : Type ℓ) : Type ℓ where
  pub id : String
  pub name : String
  pub price_delta : N
  pub is_default : Bool
  pub is_active : Bool

pub record MenuOptionOut {ℓ} (N : Type ℓ) : Type ℓ where
  pub id : String
  pub name : String
  pub price_delta : N
  pub is_active : Bool
  pub display_order : N

pub record MenuOptionGroupOut {ℓ} (N : Type ℓ) : Type ℓ where
  pub id : String
  pub name : String
  pub is_required : Bool
  pub allow_multiple : Bool
  pub display_order : N
  pub is_active : Bool
  pub options : List (MenuOptionOut N)

pub record MenuItemOut {ℓ} (N : Type ℓ) : Type ℓ where
  pub id : String
  pub category_id : String
  pub kitchen_station : Option String
  pub name : String
  pub description : Option String
  pub base_price : N
  pub is_veg : Bool
  pub is_active : Bool
  pub is_sold_out : Bool
  pub is_todays_special : Bool
  pub is_specialty : Bool
  pub image_url : Option String
  pub display_order : N
  pub stock_quantity : Option N
  pub variants : List (MenuVariantOut N)
  pub option_groups : List (MenuOptionGroupOut N)
