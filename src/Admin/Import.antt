-- ===== src/Admin/Import.antt =====
-- src/admin/properties/csv-import.service.ts: rows of a table become properties. `Number`,
-- `toLowerCase` and the upsert of a property are parameters.
pub mod Accounts
use inmoagent.Prelude.{
  ℕ, suc, ◌+◌, String, Bool, true, false, not, ◌&&◌, ◌||◌, Option, none, some, List, [], ◌∷◌, ◌++◌,
  ◌==◌, if◌then◌else◌, is_empty, is_nonempty, filter, trim, map, ◌⊎◌, inl, inr,
}
use inmoagent.Regex.{codes}
use inmoagent.Domain.Property.{OperationType, sale, rent, temp_rent}
use inmoagent.Admin.Csv.{parse_csv}
use inmoagent.Properties.Neighborhoods.{units_eq}

abbrev pub Units : Type 0
Units = List ℕ

-- REQUIRED_COLUMNS
abbrev pub required_columns : List Units
required_columns =
    codes "external_ref"
    ∷ codes "title"
    ∷ codes "description"
    ∷ codes "operation"
    ∷ codes "property_type"
    ∷ codes "price"
    ∷ codes "currency"
    ∷ codes "expenses"
    ∷ codes "neighborhood"
    ∷ codes "city"
    ∷ codes "address"
    ∷ codes "rooms"
    ∷ codes "bedrooms"
    ∷ codes "bathrooms"
    ∷ codes "area_m2"
    ∷ codes "garage"
    ∷ codes "pets_allowed"
    ∷ codes "features"
    ∷ codes "listing_url"
    ∷ codes "photo_urls"
    ∷ []

-- What the standard library tells of the number that a text reads as, which is `value`.
pub record Reading (Num : Type 0) : Type 0 where
  pub value : Units → Num
  pub is_nan : Units → Bool
  pub is_positive : Units → Bool
  pub is_integer : Units → Bool
  pub to_lower_case : Units → Units

unfoldable pub includes_column : List Units → Units → Bool
includes_column [] column = false
includes_column (h ∷ header) column = units_eq h column || includes_column header column

-- `toRecord`: of two columns of one name the last one counts; a row may be short.
unfoldable pub to_record : List Units → List Units → Units → Units
to_record [] row column = []
to_record (h ∷ header) [] column = []
to_record (h ∷ header) (value ∷ row) column =
    let later = to_record header row column in
    if includes_column header column then later else if units_eq h column then trim value else []

pub data RowError : Type 0 where
  no_external_ref no_title no_property_type no_neighborhood : RowError
  bad_operation bad_price bad_expenses : Units → RowError
  bad_integer : Units → Units → RowError
  not_upserted : Units → RowError

-- `UpsertPropertyInput`
pub record PropertyInput (Num : Type 0) : Type 0 where
  pub external_ref : Units
  pub title : Units
  pub description : Option Units
  pub operation : OperationType
  pub property_type : Units
  pub price : Num
  pub currency : Option Units
  pub expenses : Option Num
  pub neighborhood : Units
  pub city : Option Units
  pub address : Option Units
  pub rooms : Option Num
  pub bedrooms : Option Num
  pub bathrooms : Option Num
  pub area_m2 : Option Num
  pub garage : Option Bool
  pub pets_allowed : Option Bool
  pub features : Option (List Units)
  pub listing_url : Option Units
  pub photo_urls : Option (List Units)

-- `value || undefined`
abbrev pub or_undefined : Units → Option Units
or_undefined value = if is_empty value then none else some value

-- OPERATION_MAP
unfoldable pub operation_of : Units → Option OperationType
unfolding units_eq
operation_of s =
    if units_eq s (codes "venta")
    then some sale
    else if units_eq s (codes "alquiler")
    then some rent
    else if units_eq s (codes "temporario")
    then some temp_rent
    else none

-- one more unit in front of the first part
abbrev pub push_unit : ℕ → List Units → List Units
push_unit c [] = [] ∷ []
push_unit c (part ∷ parts) = if c == b';' then [] ∷ part ∷ parts else (c ∷ part) ∷ parts

-- `split(';')`
unfoldable pub split_semicolon : Units → List Units
split_semicolon [] = [] ∷ []
split_semicolon (c ∷ s) = push_unit c (split_semicolon s)

unfoldable pub parse_list : Units → Option (List Units)
unfolding split_semicolon
parse_list value =
    let items = filter is_nonempty (map trim (split_semicolon value)) in
    if is_empty value || is_empty items then none else some items

module _ {Num : Type 0} (n : Reading Num) where
  unfoldable pub parse_si_no : Units → Option Bool
  parse_si_no value =
      let normalized = n.to_lower_case (trim value) in
      if units_eq normalized (codes "si") || units_eq normalized (codes "sí")
      then some true
      else if units_eq normalized (codes "no")
      then some false
      else none

  unfoldable pub parse_optional_int : Units → Option Num
  parse_optional_int value = if is_empty value then none else some (n.value value)

  -- The first of the fields that has a value which is no integer.
  unfoldable pub invalid_int_field : (Units → Units) → List Units → Option Units
  invalid_int_field fields [] = none
  invalid_int_field fields (label ∷ labels) =
      let others = invalid_int_field fields labels in
      if is_nonempty (fields label) && not (n.is_integer (fields label)) then some label else others

  abbrev pub input_of : (Units → Units) → OperationType → PropertyInput Num
  input_of fields operation = record {
    external_ref = fields (codes "external_ref");
    title = fields (codes "title");
    description = or_undefined (fields (codes "description"));
    operation = operation;
    property_type = fields (codes "property_type");
    price = n.value (fields (codes "price"));
    currency = or_undefined (fields (codes "currency"));
    expenses = parse_optional_int (fields (codes "expenses"));
    neighborhood = fields (codes "neighborhood");
    city = or_undefined (fields (codes "city"));
    address = or_undefined (fields (codes "address"));
    rooms = parse_optional_int (fields (codes "rooms"));
    bedrooms = parse_optional_int (fields (codes "bedrooms"));
    bathrooms = parse_optional_int (fields (codes "bathrooms"));
    area_m2 = parse_optional_int (fields (codes "area_m2"));
    garage = parse_si_no (fields (codes "garage"));
    pets_allowed = parse_si_no (fields (codes "pets_allowed"));
    features = parse_list (fields (codes "features"));
    listing_url = or_undefined (fields (codes "listing_url"));
    photo_urls = parse_list (fields (codes "photo_urls"));
  }

  abbrev int_labels : List Units
  int_labels = codes "rooms" ∷ codes "bedrooms" ∷ codes "bathrooms" ∷ codes "area_m2" ∷ []

  -- `parseRow`, from the operation on
  unfoldable pub parse_numbers : (Units → Units) → OperationType → RowError ⊎ PropertyInput Num
  unfolding invalid_int_field
  parse_numbers fields operation =
      let price = fields (codes "price") in
      let expenses = fields (codes "expenses") in
      if is_empty (fields (codes "property_type"))
      then inl no_property_type
      else if is_empty price || n.is_nan price || not (n.is_positive price)
      then inl (bad_price price)
      else if is_empty (fields (codes "neighborhood"))
      then inl no_neighborhood
      else if is_nonempty expenses && n.is_nan expenses
      then inl (bad_expenses expenses)
      else elim (invalid_int_field fields int_labels) [
        | some label ↦ inl (bad_integer label (fields label))
        | none ↦ inr (input_of fields operation)
      ]

  unfoldable pub parse_row : (Units → Units) → RowError ⊎ PropertyInput Num
  unfolding operation_of parse_numbers
  parse_row fields =
      if is_empty (fields (codes "external_ref"))
      then inl no_external_ref
      else if is_empty (fields (codes "title"))
      then inl no_title
      else elim (operation_of (n.to_lower_case (fields (codes "operation")))) [
        | none ↦ inl (bad_operation (fields (codes "operation")))
        | some operation ↦ parse_numbers fields operation
      ]

  -- A table's rows, stored by `upsert`, which may fail with a message.
  module _ {DB : Type 0} (upsert : PropertyInput Num → DB → Units ⊎ DB) where
    -- What an import has done so far.
    pub record Progress : Type 0 where
      pub db : DB
      pub imported : ℕ
      pub errors : List (ℕ × RowError)

    abbrev pub note_error : ℕ → RowError → Progress → Progress
    note_error row e p = record p { errors = p.errors ++ (row, e) ∷ [] }

    unfoldable pub import_row : List Units → ℕ → List Units → Progress → Progress
    unfolding parse_row to_record
    import_row header number row p = elim (parse_row (to_record header row)) [
      | inl e ↦ note_error number e p
      | inr input ↦ elim (upsert input p.db) [
        | inl message ↦ note_error number (not_upserted message) p
        | inr db ↦ record p { db = db; imported = p.imported + 1 }
      ]
    ]

    unfoldable pub import_rows : List Units → ℕ → List (List Units) → Progress → Progress
    unfolding import_row
    import_rows header number [] p = p
    import_rows header number (row ∷ rows) p =
        import_rows header (number + 1) rows (import_row header number row p)

    -- `import`: the missing columns, or what was done. The first row is number 1.
    unfoldable pub import_csv : DB → Units → List Units ⊎ Progress
    unfolding import_rows includes_column
    import_csv db text = elim (parse_csv text) [
      | [] ↦ inr (record { db = db; imported = 0; errors = [] })
      | titles ∷ rows ↦
          let header = map trim titles in
          let missing = filter (λ (c : Units). not (includes_column header c)) required_columns in
          if is_nonempty missing
          then inl missing
          else inr (import_rows header 2 rows (record { db = db; imported = 0; errors = [] }))
    ]
