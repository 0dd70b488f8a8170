-- ===== src/Domain/Property.antt =====
-- prisma/schema.prisma: `Property` with its photos, as the search and the replies read it.
use inmoagent.Prelude.{ℕ, String, Bool, true, false, Option, List, ◌≡◌, refl}

pub data OperationType : Type 0 where
  sale rent temp_rent : OperationType

abbrev pub operation_eq : OperationType → OperationType → Bool
operation_eq sale sale = true
operation_eq rent rent = true
operation_eq temp_rent temp_rent = true
operation_eq _ _ = false

pub data PropertyStatus : Type 0 where
  active reserved sold_or_rented paused : PropertyStatus

abbrev pub is_active : PropertyStatus → Bool
is_active active = true
is_active _ = false

pub record Property : Type 0 where
  pub id : String
  pub tenant_id : String
  pub title : String
  pub operation : OperationType
  pub status : PropertyStatus
  pub price : ℕ
  pub currency : String
  pub neighborhood : String
  pub rooms : Option ℕ
  pub garage : Bool
  pub pets_allowed : Option Bool
  pub photos : List String

pub operation_eq_sound : (a b : OperationType) → operation_eq a b ≡ true → a ≡ b
operation_eq_sound sale sale h = refl
operation_eq_sound rent rent h = refl
operation_eq_sound temp_rent temp_rent h = refl
operation_eq_sound _ _ h = cc
