-- ===== src/Auth/Guards.antt =====
-- src/auth/guards and src/admin/guards: who may use an endpoint of the panel. Hashes, the verification
-- of a key and the bytes of a text are parameters.
pub mod Scoped
pub mod LockedOut
pub mod StaleLogin
use inmoagent.Prelude.{
  ℕ, String, Bool, true, false, not, ◌&&◌, ◌||◌, Option, none, some, List, [], ◌∷◌, length, ltb,
  ◌==◌, if◌then◌else◌, str_eq, trim, is_empty, is_nonempty, is_some, ◌⊎◌, inl, inr,
}
use inmoagent.Regex.{codes}
use inmoagent.Auth.Login.{Session}
use inmoagent.Auth.People.{Units, PersonRole, is_owner, PersonRow, TenantRow, Accounts, find_tenant}
use inmoagent.Auth.People.Requests.{is_tenant_active}

-- `string | string[] | undefined`
pub data Header : Type 0 where
  absent : Header
  single : Units → Header
  repeated : List Units → Header

-- `tenant_id` is the part `:tenantId` of the route, if it has one.
pub record HttpRequest : Type 0 where
  pub authorization : Header
  pub api_key : Header
  pub master_key : Header
  pub tenant_id : Option String

pub data Refusal : Type 0 where
  unauthorized forbidden : Refusal

-- What the guards attach to the request.
pub data Actor : Type 0 where
  by_key : TenantRow → Actor
  by_person : PersonRow → Session → Actor

pub record Kit : Type 0 where
  pub hash_session_token : Units → String
  pub verify_key : String → Units → Bool
  pub bytes : Units → List ℕ
  pub timing_safe_equal : List ℕ → List ℕ → Bool

-- The rest of a text that starts with a prefix.
unfoldable pub after_prefix : Units → Units → Option Units
after_prefix [] s = some s
after_prefix (c ∷ cs) [] = none
after_prefix (c ∷ cs) (d ∷ s) = if c == d then after_prefix cs s else none

abbrev pub bearer_prefix : Units
bearer_prefix = codes "Bearer "

unfoldable pub extract_bearer_token : Header → Option Units
unfolding after_prefix
extract_bearer_token absent = none
extract_bearer_token (repeated values) = none
extract_bearer_token (single header) = elim (after_prefix bearer_prefix header) [
  | none ↦ none
  | some rest ↦ if is_nonempty (trim rest) then some (trim rest) else none
]

unfoldable pub find_session : String → List Session → Option Session
find_session token_hash [] = none
find_session token_hash (s ∷ sessions) =
    if str_eq s.token_hash token_hash then some s else find_session token_hash sessions

-- The session's person, which a foreign key points to.
unfoldable pub find_by_id : String → List PersonRow → Option PersonRow
find_by_id id [] = none
find_by_id id (p ∷ people) = if str_eq p.id id then some p else find_by_id id people

unfoldable pub check_person :
    ℕ → List TenantRow → Session → PersonRow → Refusal ⊎ (PersonRow × Session)
unfolding is_tenant_active
check_person now tenants session person =
    if ltb session.expires_at now
      || not person.is_active
      || not (is_tenant_active person.tenant_id tenants)
    then inl unauthorized
    else inr (person, session)

unfoldable pub check_session : ℕ → Accounts → Option Session → Refusal ⊎ (PersonRow × Session)
unfolding find_by_id check_person
check_session now db none = inl unauthorized
check_session now db (some session) = elim (find_by_id session.person_id db.people) [
  | none ↦ inl unauthorized
  | some person ↦ check_person now db.tenants session person
]

unfoldable pub person_session_guard :
    Kit → ℕ → HttpRequest → Accounts → Refusal ⊎ (PersonRow × Session)
unfolding extract_bearer_token find_session check_session
person_session_guard kit now request db = elim (extract_bearer_token request.authorization) [
  | none ↦ inl unauthorized
  | some token ↦ check_session now db (find_session (kit.hash_session_token token) db.sessions)
]

-- A route without a tenant is let through.
unfoldable pub tenant_scope_guard :
    HttpRequest → PersonRow × Session → Refusal ⊎ (PersonRow × Session)
tenant_scope_guard request (person, session) = elim request.tenant_id [
  | none ↦ inr (person, session)
  | some tenant_id ↦
      if str_eq tenant_id "" || str_eq person.tenant_id tenant_id
      then inr (person, session)
      else inl forbidden
]

unfoldable pub check_key : Kit → Units → Option TenantRow → Refusal ⊎ TenantRow
check_key kit api_key none = inl unauthorized
check_key kit api_key (some tenant) =
    if kit.verify_key tenant.api_key_hash api_key then inr tenant else inl unauthorized

unfoldable pub tenant_api_key_guard : Kit → HttpRequest → Accounts → Refusal ⊎ TenantRow
unfolding find_tenant check_key
tenant_api_key_guard kit request db = elim request.api_key [
  | absent ↦ inl unauthorized
  | repeated values ↦ inl unauthorized
  | single api_key ↦ elim request.tenant_id [
    | none ↦ inl unauthorized
    | some tenant_id ↦
        if is_empty api_key || str_eq tenant_id ""
        then inl unauthorized
        else check_key kit api_key (find_tenant tenant_id db.tenants)
  ]
]

unfoldable pub has_api_key : Header → Bool
has_api_key (single api_key) = is_nonempty api_key
has_api_key absent = false
has_api_key (repeated values) = false

unfoldable pub has_bearer : Header → Bool
unfolding after_prefix
has_bearer (single header) = is_some (after_prefix bearer_prefix header)
has_bearer absent = false
has_bearer (repeated values) = false

unfoldable pub and_scoped :
    HttpRequest → Refusal ⊎ (PersonRow × Session) → Refusal ⊎ (PersonRow × Session)
unfolding tenant_scope_guard
and_scoped request (inl refusal) = inl refusal
and_scoped request (inr found) = tenant_scope_guard request found

abbrev pub person_actor : Refusal ⊎ (PersonRow × Session) → Refusal ⊎ Actor
person_actor (inl refusal) = inl refusal
person_actor (inr (person, session)) = inr (by_person person session)

abbrev pub key_actor : Refusal ⊎ TenantRow → Refusal ⊎ Actor
key_actor (inl refusal) = inl refusal
key_actor (inr tenant) = inr (by_key tenant)

unfoldable pub person_or_api_key_guard : Kit → ℕ → HttpRequest → Accounts → Refusal ⊎ Actor
unfolding has_api_key has_bearer tenant_api_key_guard person_session_guard and_scoped
person_or_api_key_guard kit now request db =
    if has_api_key request.api_key
    then key_actor (tenant_api_key_guard kit request db)
    else if has_bearer request.authorization
    then person_actor (and_scoped request (person_session_guard kit now request db))
    else inl unauthorized

unfoldable pub owner_role_guard : PersonRole → Bool
owner_role_guard role = is_owner role

unfoldable pub person_session_required_guard : Actor → Bool
person_session_required_guard (by_key tenant) = false
person_session_required_guard (by_person person session) = true

unfoldable pub safe_equal : Kit → Units → Units → Bool
safe_equal kit a b =
    length (kit.bytes a) == length (kit.bytes b)
    && kit.timing_safe_equal (kit.bytes a) (kit.bytes b)

unfoldable pub master_key_guard : Kit → Units → HttpRequest → Bool
unfolding safe_equal
master_key_guard kit expected request = elim request.master_key [
  | absent ↦ false
  | repeated values ↦ false
  | single provided ↦ is_nonempty provided && safe_equal kit provided expected
]
