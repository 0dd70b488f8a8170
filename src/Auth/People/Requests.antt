-- ===== src/Auth/People/Requests.antt =====
-- The requests that write the tables of people and sessions, one after the other: people.service.ts,
-- and `login` and `logout` of auth.service.ts.
use inmoagent.Prelude.{
  ℕ, String, Bool, false, not, Option, none, some, List, [], ◌∷◌, if◌then◌else◌, str_eq, filter,
}
use inmoagent.Properties.Neighborhoods.{units_eq}
use inmoagent.Auth.Login.{Cell, Counters, Config, Person, Passwords, Session, login}
use inmoagent.Auth.People.{
  Units, PersonRole, PersonRow, TenantRow, Accounts, bootstrap_owner, create, deactivate,
  reset_password, normalize_email, find_tenant,
}

pub record Kit : Type 0 where
  pub to_lower_case : Units → Units
  pub hash_password : Units → String
  pub hash_session_token : Units → String

-- `person.findUnique({ where: { email } })`
unfoldable pub find_by_email : Units → List PersonRow → Option PersonRow
find_by_email email [] = none
find_by_email email (p ∷ people) =
    if units_eq p.email email then some p else find_by_email email people

unfoldable pub is_tenant_active : String → List TenantRow → Bool
unfolding find_tenant
is_tenant_active id tenants = elim (find_tenant id tenants) [ none ↦ false | some t ↦ t.is_active ]

-- A person as `login` reads it, with `include: { tenant: true }`.
unfoldable pub with_tenant : List TenantRow → Option PersonRow → Option Person
unfolding is_tenant_active
with_tenant tenants none = none
with_tenant tenants (some p) = some (record {
  id = p.id;
  password_hash = p.password_hash;
  is_active = p.is_active;
  is_tenant_active = is_tenant_active p.tenant_id tenants;
})

-- `seen` is the table when `login` reads the person; the session is created later.
unfoldable pub sign_in :
    Kit
    → Counters
    → Passwords
    → Config
    → ℕ
    → List PersonRow
    → Units
    → String
    → Option Cell
    → Accounts
    → Accounts
unfolding normalize_email find_by_email with_tenant
sign_in kit counters p config now seen email password cell db =
    let person = find_by_email (normalize_email kit.to_lower_case email) seen in
    record db {
      sessions =
          (login counters p config now (with_tenant db.tenants person) password cell db.sessions).2;
    }

unfoldable pub logout : Kit → Units → Accounts → Accounts
logout kit token db = record db {
  sessions =
      filter (λ (s : Session). not (str_eq s.token_hash (kit.hash_session_token token)))
        db.sessions;
}

pub data Request : Type 0 where
  bootstraps : List PersonRow → String → String → Units → Units → Request
  creates : String → String → Units → Option Units → PersonRole → Units → Request
  deactivates : String → String → Request
  resets : String → String → Units → Request
  signs_in :
      Counters → Passwords → Config → ℕ → List PersonRow → Units → String → Option Cell → Request
  signs_out : Units → Request

unfoldable pub handle_request : Kit → Request → Accounts → Accounts
unfolding sign_in logout
handle_request kit (bootstraps seen new_id tenant_id email password) db =
    (bootstrap_owner kit.to_lower_case kit.hash_password seen new_id tenant_id email password db).1
handle_request kit (creates new_id tenant_id email password role temporary) db =
    (create kit.to_lower_case kit.hash_password new_id tenant_id email password role temporary db).1
handle_request kit (deactivates tenant_id person_id) db = (deactivate tenant_id person_id db).1
handle_request kit (resets tenant_id person_id temporary) db =
    (reset_password kit.hash_password tenant_id person_id temporary db).1
handle_request kit (signs_in counters p config now seen email password cell) db =
    sign_in kit counters p config now seen email password cell db
handle_request kit (signs_out token) db = logout kit token db

unfoldable pub handle_requests : Kit → List Request → Accounts → Accounts
handle_requests kit [] db = db
handle_requests kit (request ∷ requests) db =
    handle_requests kit requests (handle_request kit request db)
