-- ===== src/Auth/People.antt =====
-- src/auth/people.service.ts, and what the tables of people, sessions and tenants hold. The statements
-- of a transaction are one step. Lower case, the hashes and the random texts are parameters.
pub mod Written
pub mod Owners
pub mod Requests
pub mod Governed
use inmoagent.Prelude.{
  ℕ, String, Bool, true, false, not, ◌&&◌, ◌||◌, Option, none, some, List, [], ◌∷◌, ◌++◌, length,
  leb, if◌then◌else◌, str_eq, trim, filter, is_nonempty, is_some, or_value, is_none,
}
use inmoagent.Properties.Neighborhoods.{units_eq}
use inmoagent.Auth.Login.{Session}

abbrev pub Units : Type 0
Units = List ℕ

pub data PersonRole : Type 0 where
  owner agent : PersonRole

abbrev pub is_owner : PersonRole → Bool
is_owner owner = true
is_owner agent = false

pub record PersonRow : Type 0 where
  pub id : String
  pub tenant_id : String
  pub email : Units
  pub password_hash : String
  pub role : PersonRole
  pub is_active : Bool

pub record TenantRow : Type 0 where
  pub id : String
  pub api_key_hash : String
  pub is_active : Bool

pub record Accounts : Type 0 where
  pub tenants : List TenantRow
  pub people : List PersonRow
  pub sessions : List Session

-- `PersonResponse`
pub record PersonResponse : Type 0 where
  pub id : String
  pub tenant_id : String
  pub email : Units
  pub role : PersonRole
  pub is_active : Bool

unfoldable pub to_person_response : PersonRow → PersonResponse
to_person_response p = record {
  id = p.id;
  tenant_id = p.tenant_id;
  email = p.email;
  role = p.role;
  is_active = p.is_active;
}

-- P2002 and P2003
pub data DbError : Type 0 where
  unique_violation foreign_key_violation : DbError

pub data PeopleError : Type 0 where
  owner_exists email_taken last_owner tenant_not_found person_not_found : PeopleError
  database_error : DbError → PeopleError

-- What a request answers: a person, with the password where one was generated.
pub data PeopleResult : Type 0 where
  done : PersonResponse → Option Units → PeopleResult
  failed : PeopleError → PeopleResult

-- `where: { tenantId, role: OWNER, active: true }`, which is the condition of the partial index too
unfoldable pub is_active_owner : String → PersonRow → Bool
is_active_owner tenant_id p = str_eq p.tenant_id tenant_id && is_owner p.role && p.is_active

-- The ids of the rows that this finds.
unfoldable pub active_owners : String → List PersonRow → List String
active_owners tenant_id [] = []
active_owners tenant_id (p ∷ people) =
    if is_active_owner tenant_id p
    then p.id ∷ active_owners tenant_id people
    else active_owners tenant_id people

unfoldable pub has_id : String → List PersonRow → Bool
has_id id [] = false
has_id id (p ∷ people) = str_eq p.id id || has_id id people

unfoldable pub has_email : Units → List PersonRow → Bool
has_email email [] = false
has_email email (p ∷ people) = units_eq p.email email || has_email email people

unfoldable pub find_tenant : String → List TenantRow → Option TenantRow
find_tenant id [] = none
find_tenant id (t ∷ tenants) = if str_eq t.id id then some t else find_tenant id tenants

-- `person.create` with the keys of the schema: the id, the e-mail, and one active owner per tenant.
unfoldable pub violates_unique : PersonRow → List PersonRow → Bool
unfolding has_id has_email is_active_owner active_owners
violates_unique row people =
    has_id row.id people
    || has_email row.email people
    || (is_active_owner row.tenant_id row && is_nonempty (active_owners row.tenant_id people))

unfoldable pub insert_person : PersonRow → Accounts → Option DbError × Accounts
unfolding violates_unique find_tenant
insert_person row db =
    if violates_unique row db.people
    then (some unique_violation, db)
    else if is_none (find_tenant row.tenant_id db.tenants)
    then (some foreign_key_violation, db)
    else (none, record db { people = db.people ++ row ∷ [] })

-- `findFirst({ id, tenantId })`
unfoldable pub find_person : String → String → List PersonRow → Option PersonRow
find_person tenant_id id [] = none
find_person tenant_id id (p ∷ people) =
    if str_eq p.id id && str_eq p.tenant_id tenant_id
    then some p
    else find_person tenant_id id people

-- `update({ where: { id } })`
unfoldable pub update_person : String → (PersonRow → PersonRow) → List PersonRow → List PersonRow
update_person id change [] = []
update_person id change (p ∷ people) =
    (if str_eq p.id id then change p else p) ∷ update_person id change people

-- `session.deleteMany({ where: { personId } })`
unfoldable pub delete_sessions : String → List Session → List Session
delete_sessions person_id sessions =
    filter (λ (s : Session). not (str_eq s.person_id person_id)) sessions

unfoldable pub normalize_email : (Units → Units) → Units → Units
normalize_email to_lower_case email = to_lower_case (trim email)

abbrev pub deactivated : PersonRow → PersonRow
deactivated p = record p { is_active = false }

abbrev pub rehashed : String → PersonRow → PersonRow
rehashed hash p = record p { password_hash = hash }

-- `create` gives an error of the database to its caller as one of its own.
unfoldable pub bootstrap_error : DbError → PeopleError
bootstrap_error unique_violation = owner_exists
bootstrap_error foreign_key_violation = tenant_not_found

unfoldable pub create_error : DbError → PeopleError
create_error unique_violation = email_taken
create_error foreign_key_violation = database_error foreign_key_violation

unfoldable pub answer_insert :
    (DbError → PeopleError)
    → PersonRow
    → Option Units
    → Option DbError × Accounts
    → PeopleResult × Accounts
unfolding to_person_response
answer_insert error_of row temporary (none, db) = (done (to_person_response row) temporary, db)
answer_insert error_of row temporary (some e, db) = (failed (error_of e), db)

unfoldable pub deactivate : String → String → Accounts → PeopleResult × Accounts
unfolding find_person active_owners update_person delete_sessions to_person_response
deactivate tenant_id person_id db = elim (find_person tenant_id person_id db.people) [
  | none ↦ (failed person_not_found, db)
  | some target ↦
      if target.is_active
        && is_owner target.role
        && leb (length (active_owners tenant_id db.people)) 1
      then (failed last_owner, db)
      else (
        done (to_person_response (deactivated target)) none,
        record db {
          people = update_person person_id deactivated db.people;
          sessions = delete_sessions person_id db.sessions;
        },
      )
]

module _ (to_lower_case : Units → Units) (hash_password : Units → String) where
  abbrev pub new_person : String → String → Units → Units → PersonRole → PersonRow
  new_person id tenant_id email password role = record {
    id = id;
    tenant_id = tenant_id;
    email = normalize_email to_lower_case email;
    password_hash = hash_password password;
    role = role;
    is_active = true;
  }

  -- `seen` is the table of people at the `findFirst`; others may write before the `create`.
  unfoldable pub bootstrap_owner :
      List PersonRow → String → String → Units → Units → Accounts → PeopleResult × Accounts
  unfolding active_owners insert_person bootstrap_error answer_insert normalize_email
  bootstrap_owner seen new_id tenant_id email password db =
      let row = new_person new_id tenant_id email password owner in
      if is_nonempty (active_owners tenant_id seen)
      then (failed owner_exists, db)
      else answer_insert bootstrap_error row none (insert_person row db)

  -- `temporary` is what `generateTemporaryPassword` would give.
  unfoldable pub create :
      String
      → String
      → Units
      → Option Units
      → PersonRole
      → Units
      → Accounts
      → PeopleResult × Accounts
  unfolding insert_person create_error answer_insert normalize_email
  create new_id tenant_id email password role temporary db =
      let row = new_person new_id tenant_id email (or_value password temporary) role in
      answer_insert create_error row (if is_none password then some temporary else none)
        (insert_person row db)

unfoldable pub reset_password :
    (Units → String) → String → String → Units → Accounts → PeopleResult × Accounts
unfolding find_person update_person delete_sessions to_person_response
reset_password hash_password tenant_id person_id temporary db =
    elim (find_person tenant_id person_id db.people) [
      | none ↦ (failed person_not_found, db)
      | some target ↦ (
        done (to_person_response target) (some temporary),
        record db {
          people = update_person person_id (rehashed (hash_password temporary)) db.people;
          sessions = delete_sessions person_id db.sessions;
        },
      )
    ]
