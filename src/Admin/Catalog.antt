-- ===== src/Admin/Catalog.antt =====
-- src/admin/properties/properties-admin.service.ts: the properties of a tenant, as the panel and the
-- import write them. The statements of a transaction are one step.
pub mod Upsert
use inmoagent.Prelude.{
  ℕ, suc, ◌+◌, ◌-◌, ◌*◌, String, Bool, true, false, not, ◌&&◌, ◌||◌, Option, none, some, List, [],
  ◌∷◌, ◌++◌, if◌then◌else◌, or_value, or_else, str_eq, is_nonempty, is_none, filter, take, drop,
  length, ◌⊎◌, inl, inr,
}
use inmoagent.Regex.{codes}
use inmoagent.Domain.Property.{OperationType, PropertyStatus, active}
use inmoagent.Properties.Neighborhoods.{units_eq}
use inmoagent.Admin.Import.{Units, PropertyInput}

-- `PropertyPhoto`, without the id of its property
pub record Photo : Type 0 where
  pub id : String
  pub url : Units
  pub position : ℕ

pub record PropertyRow (Num : Type 0) : Type 0 where
  pub id : String
  pub tenant_id : String
  pub external_ref : Option Units
  pub title : Units
  pub description : Option Units
  pub operation : OperationType
  pub property_type : Units
  pub status : PropertyStatus
  pub price : Num
  pub currency : Units
  pub expenses : Option Num
  pub neighborhood : Units
  pub city : Option Units
  pub address : Option Units
  pub rooms : Option Num
  pub bedrooms : Option Num
  pub bathrooms : Option Num
  pub area_m2 : Option Num
  pub garage : Bool
  pub pets_allowed : Option Bool
  pub features : List Units
  pub listing_url : Option Units
  pub photos : List Photo
  pub created_at : ℕ
  pub updated_at : ℕ

-- What the database takes for what it writes: the time, and the ids of a new row and of the photo at
-- each position.
pub record Fresh : Type 0 where
  pub now : ℕ
  pub id : String
  pub photo_id : ℕ → String

-- `UpdatePropertyDto`: a field that is not there stays as it is.
pub record PropertyPatch (Num : Type 0) : Type 0 where
  pub title : Option Units
  pub description : Option Units
  pub operation : Option OperationType
  pub property_type : Option Units
  pub price : Option Num
  pub currency : Option Units
  pub expenses : Option Num
  pub neighborhood : Option Units
  pub city : Option Units
  pub address : Option Units
  pub rooms : Option Num
  pub bedrooms : Option Num
  pub bathrooms : Option Num
  pub area_m2 : Option Num
  pub garage : Option Bool
  pub pets_allowed : Option Bool
  pub features : Option (List Units)
  pub listing_url : Option Units
  pub photo_urls : Option (List Units)

-- `urls.map((url, position) => ...)`
unfoldable pub numbered : (ℕ → String) → ℕ → List Units → List Photo
numbered photo_id position [] = []
numbered photo_id position (url ∷ urls) =
    (record { id = photo_id position; url = url; position = position })
    ∷ numbered photo_id (suc position) urls

-- `input.photoUrls && input.photoUrls.length > 0`
abbrev pub replaces_photos : Option (List Units) → Bool
replaces_photos none = false
replaces_photos (some urls) = is_nonempty urls

pub data Outcome : Type 0 where
  not_found conflict : Outcome
  saved : Outcome

abbrev pub normalized_or : (Units → Units) → Option Units → Units → Units
normalized_or normalize_neighborhood none old = old
normalized_or normalize_neighborhood (some s) old =
    if is_nonempty s then normalize_neighborhood s else old

-- `appointments` are the tenants and the properties of those that there are.
unfoldable pub is_visited : String → String → List (String × Option String) → Bool
is_visited tenant_id id [] = false
is_visited tenant_id id ((t, none) ∷ appointments) = is_visited tenant_id id appointments
is_visited tenant_id id ((t, some property_id) ∷ appointments) =
    (str_eq t tenant_id && str_eq property_id id) || is_visited tenant_id id appointments

-- `update({ where: { id } })`
unfoldable pub change_by_id :
    {Num : Type 0}
    → String
    → (PropertyRow Num → PropertyRow Num)
    → List (PropertyRow Num)
    → List (PropertyRow Num)
change_by_id id change [] = []
change_by_id id change (r ∷ table) =
    (if str_eq r.id id then change r else r) ∷ change_by_id id change table

module _ {Num : Type 0} (normalize_neighborhood : Units → Units) (tenant_id : String) where
  -- The row that `create` writes, and the `create` of the upsert, with the schema's defaults.
  unfoldable pub created_row : Fresh → Option Units → PropertyInput Num → PropertyRow Num
  unfolding numbered
  created_row fresh external_ref input = record {
    id = fresh.id;
    tenant_id = tenant_id;
    external_ref = external_ref;
    title = input.title;
    description = input.description;
    operation = input.operation;
    property_type = input.property_type;
    status = active;
    price = input.price;
    currency = or_value input.currency (codes "USD");
    expenses = input.expenses;
    neighborhood = normalize_neighborhood input.neighborhood;
    city = input.city;
    address = input.address;
    rooms = input.rooms;
    bedrooms = input.bedrooms;
    bathrooms = input.bathrooms;
    area_m2 = input.area_m2;
    garage = or_value input.garage false;
    pets_allowed = input.pets_allowed;
    features = or_value input.features [];
    listing_url = input.listing_url;
    photos = numbered fresh.photo_id 0 (or_value input.photo_urls []);
    created_at = fresh.now;
    updated_at = fresh.now;
  }

  -- The `update` of the upsert.
  unfoldable pub upserted_row : Fresh → PropertyInput Num → PropertyRow Num → PropertyRow Num
  unfolding numbered
  upserted_row fresh input r = record {
    id = r.id;
    tenant_id = r.tenant_id;
    external_ref = r.external_ref;
    title = input.title;
    description = or_else input.description r.description;
    operation = input.operation;
    property_type = input.property_type;
    status = r.status;
    price = input.price;
    currency = or_value input.currency r.currency;
    expenses = or_else input.expenses r.expenses;
    neighborhood = normalize_neighborhood input.neighborhood;
    city = or_else input.city r.city;
    address = or_else input.address r.address;
    rooms = or_else input.rooms r.rooms;
    bedrooms = or_else input.bedrooms r.bedrooms;
    bathrooms = or_else input.bathrooms r.bathrooms;
    area_m2 = or_else input.area_m2 r.area_m2;
    garage = or_value input.garage r.garage;
    pets_allowed = or_else input.pets_allowed r.pets_allowed;
    features = or_value input.features r.features;
    listing_url = or_else input.listing_url r.listing_url;
    photos =
        if replaces_photos input.photo_urls
        then numbered fresh.photo_id 0 (or_value input.photo_urls [])
        else r.photos;
    created_at = r.created_at;
    updated_at = fresh.now;
  }

  -- `tenantId_externalRef`
  unfoldable pub has_ref : Units → PropertyRow Num → Bool
  unfolding units_eq
  has_ref external_ref r =
      str_eq r.tenant_id tenant_id
      && elim r.external_ref [ none ↦ false | some ref ↦ units_eq ref external_ref ]

  unfoldable pub upsert_by_external_ref :
      Fresh → PropertyInput Num → List (PropertyRow Num) → List (PropertyRow Num)
  unfolding created_row upserted_row has_ref
  upsert_by_external_ref fresh input [] = created_row fresh (some input.external_ref) input ∷ []
  upsert_by_external_ref fresh input (r ∷ table) =
      let later = r ∷ upsert_by_external_ref fresh input table in
      if has_ref input.external_ref r then upserted_row fresh input r ∷ table else later

  unfoldable pub has_key : Units → List (PropertyRow Num) → Bool
  unfolding has_ref
  has_key external_ref [] = false
  has_key external_ref (r ∷ table) = has_ref external_ref r || has_key external_ref table

  abbrev pub breaks_key : Option Units → List (PropertyRow Num) → Bool
  unfolding has_key
  breaks_key none table = false
  breaks_key (some external_ref) table = has_key external_ref table

  unfoldable pub create :
      Fresh
      → Option Units
      → PropertyInput Num
      → List (PropertyRow Num)
      → Outcome × List (PropertyRow Num)
  unfolding created_row has_key
  create fresh external_ref input table =
      if breaks_key external_ref table
      then (conflict, table)
      else (saved, table ++ created_row fresh external_ref input ∷ [])

  abbrev pub is_row : String → PropertyRow Num → Bool
  is_row id r = str_eq r.id id && str_eq r.tenant_id tenant_id

  unfoldable pub find_one : String → List (PropertyRow Num) → Option (PropertyRow Num)
  find_one id [] = none
  find_one id (r ∷ table) = if is_row id r then some r else find_one id table

  unfoldable pub patched : Fresh → PropertyPatch Num → PropertyRow Num → PropertyRow Num
  unfolding numbered
  patched fresh dto r = record {
    id = r.id;
    tenant_id = r.tenant_id;
    external_ref = r.external_ref;
    title = or_value dto.title r.title;
    description = or_else dto.description r.description;
    operation = or_value dto.operation r.operation;
    property_type = or_value dto.property_type r.property_type;
    status = r.status;
    price = or_value dto.price r.price;
    currency = or_value dto.currency r.currency;
    expenses = or_else dto.expenses r.expenses;
    neighborhood = normalized_or normalize_neighborhood dto.neighborhood r.neighborhood;
    city = or_else dto.city r.city;
    address = or_else dto.address r.address;
    rooms = or_else dto.rooms r.rooms;
    bedrooms = or_else dto.bedrooms r.bedrooms;
    bathrooms = or_else dto.bathrooms r.bathrooms;
    area_m2 = or_else dto.area_m2 r.area_m2;
    garage = or_value dto.garage r.garage;
    pets_allowed = or_else dto.pets_allowed r.pets_allowed;
    features = or_value dto.features r.features;
    listing_url = or_else dto.listing_url r.listing_url;
    photos = elim dto.photo_urls [ none ↦ r.photos | some urls ↦ numbered fresh.photo_id 0 urls ];
    created_at = r.created_at;
    updated_at = fresh.now;
  }

  unfoldable pub change_found :
      String
      → (PropertyRow Num → PropertyRow Num)
      → List (PropertyRow Num)
      → Outcome × List (PropertyRow Num)
  unfolding find_one change_by_id
  change_found id change table = elim (find_one id table) [
    | none ↦ (not_found, table)
    | some r ↦ (saved, change_by_id id change table)
  ]

  unfoldable pub update :
      Fresh → String → PropertyPatch Num → List (PropertyRow Num) → Outcome × List (PropertyRow Num)
  unfolding change_found patched
  update fresh id dto table = change_found id (patched fresh dto) table

  unfoldable pub update_status :
      ℕ → String → PropertyStatus → List (PropertyRow Num) → Outcome × List (PropertyRow Num)
  unfolding change_found
  update_status now id status table =
      change_found id (λ r. record r { status = status; updated_at = now }) table

  unfoldable pub remove :
      String
      → List (String × Option String)
      → List (PropertyRow Num)
      → Outcome × List (PropertyRow Num)
  unfolding find_one is_visited
  remove id appointments table = elim (find_one id table) [
    | none ↦ (not_found, table)
    | some r ↦
        if is_visited tenant_id id appointments
        then (conflict, table)
        else (saved, filter (λ (r : PropertyRow Num). not (str_eq r.id id)) table)
  ]
