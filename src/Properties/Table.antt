-- ===== src/Properties/Table.antt =====
-- The `property` table as src/properties/property-search.service.ts queries it through Prisma. The
-- database is a parameter: its answers, and the documented laws of a query that the code relies on.
use inmoagent.Prelude.{
  ℕ, suc, ◌*◌, ◌≤◌, String, Bool, true, false, Option, none, some, List, [], ◌≡◌, leb, ◌==◌, str_eq,
  includes, length, All, truthy_bool, IsSorted,
}
use inmoagent.Domain.Property.{OperationType, operation_eq, is_active, Property}

-- `where.rooms`
pub data RoomsTest : Type 0 where
  any_rooms : RoomsTest
  equals_rooms at_least_rooms : ℕ → RoomsTest

-- `Prisma.PropertyWhereInput`, as the service fills it in; the status is always ACTIVE. The bound
-- on the price is in hundredths of the price's unit, since the code multiplies by 1.1, 1.25, 1.5.
pub record Where : Type 0 where
  pub tenant_id : String
  pub operation : Option OperationType
  pub neighborhoods : Option (List String)
  pub max_price : Option ℕ
  pub currency : Option String
  pub rooms : RoomsTest
  pub garage : Bool
  pub pets_allowed : Bool

abbrev pub fits_operation : Option OperationType → OperationType → Bool
fits_operation none o = true
fits_operation (some wanted) o = operation_eq wanted o

abbrev pub fits_zone : Option (List String) → String → Bool
fits_zone none z = true
fits_zone (some zones) z = includes zones z

abbrev pub fits_price : Option ℕ → ℕ → Bool
fits_price none p = true
fits_price (some most) p = leb (p * 100) most

abbrev pub fits_currency : Option String → String → Bool
fits_currency none c = true
fits_currency (some wanted) c = str_eq wanted c

-- a comparison with SQL NULL does not hold
abbrev pub fits_rooms : RoomsTest → Option ℕ → Bool
fits_rooms any_rooms r = true
fits_rooms (equals_rooms n) none = false
fits_rooms (equals_rooms n) (some r) = r == n
fits_rooms (at_least_rooms n) none = false
fits_rooms (at_least_rooms n) (some r) = leb n r

abbrev pub fits_flag : Bool → Bool → Bool
fits_flag false b = true
fits_flag true b = b

-- Whether a row meets a `where`.
pub record Fits (w : Where) (p : Property) : Type 0 where
  pub of_tenant : str_eq p.tenant_id w.tenant_id ≡ true
  pub is_listed : is_active p.status ≡ true
  pub operation_fits : fits_operation w.operation p.operation ≡ true
  pub zone_fits : fits_zone w.neighborhoods p.neighborhood ≡ true
  pub price_fits : fits_price w.max_price p.price ≡ true
  pub currency_fits : fits_currency w.currency p.currency ≡ true
  pub rooms_fit : fits_rooms w.rooms p.rooms ≡ true
  pub garage_fits : fits_flag w.garage p.garage ≡ true
  pub pets_fit : fits_flag w.pets_allowed (truthy_bool p.pets_allowed) ≡ true

abbrev pub price_le : Property → Property → Bool
price_le a b = leb a.price b.price

-- What a query answers: `find_many` with no limit, `find_first` with `take`, and `find_cheapest`
-- with `orderBy: { price: 'asc' }` and `take`. Nothing is assumed of the order of the other two.
pub record Table : Type 0 where
  pub find_many : Where → List Property
  pub find_first : ℕ → Where → List Property
  pub find_cheapest : ℕ → Where → List Property
  pub find_unique : String → Option Property
  pub top_zones : String → Option OperationType → ℕ → List String
  pub find_many_fit : (w : Where) → All (Fits w) (find_many w)
  pub find_first_fit : (n : ℕ) (w : Where) → All (Fits w) (find_first n w)
  pub find_cheapest_fit : (n : ℕ) (w : Where) → All (Fits w) (find_cheapest n w)
  pub find_many_complete :
      (w : Where) → find_many w ≡ [] → (p : Property) → find_unique p.id ≡ some p → ¬ Fits w p
  pub find_first_complete :
      (n : ℕ) (w : Where)
      → find_first (suc n) w ≡ []
      → (p : Property) → find_unique p.id ≡ some p
      → ¬ Fits w p
  pub find_cheapest_complete :
      (n : ℕ) (w : Where)
      → find_cheapest (suc n) w ≡ []
      → (p : Property) → find_unique p.id ≡ some p
      → ¬ Fits w p
  pub find_cheapest_length : (n : ℕ) (w : Where) → length (find_cheapest n w) ≤ n
  pub find_cheapest_sorted : (n : ℕ) (w : Where) → IsSorted price_le (find_cheapest n w)
  pub find_unique_id : (i : String) (p : Property) → find_unique i ≡ some p → p.id ≡ i
