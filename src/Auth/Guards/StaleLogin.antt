-- ===== src/Auth/Guards/StaleLogin.antt =====
-- A login that has read the person's row before the password is reset, and creates its session after.
use inmoagent.Prelude.{ℕ, String, true, false, ◌≡◌, Option, some, List, ◌∷◌, arith}
use inmoagent.Auth.Login.{
  Cell, Counters, Config, Person, Passwords, Session, login, is_blocked, is_authenticated,
  session_of,
}
use inmoagent.Auth.People.{
  Units, PersonRow, Accounts, find_person, reset_password, delete_sessions, normalize_email,
}
use inmoagent.Auth.People.Requests.{Kit, find_by_email, is_tenant_active, with_tenant, sign_in}

-- The person as the login reads it.
abbrev pub read_person : Accounts → PersonRow → Person
read_person db target = record {
  id = target.id;
  password_hash = target.password_hash;
  is_active = target.is_active;
  is_tenant_active = is_tenant_active target.tenant_id db.tenants;
}

login-succeeds :
    (counters : Counters) (p : Passwords) (config : Config) (now : ℕ) (known : Person)
    (password : String) (cell : Option Cell) (sessions : List Session)
    → is_blocked counters config now cell ≡ false
    → is_authenticated p (some known) password ≡ true
    → (login counters p config now (some known) password cell sessions).2
      ≡ session_of p config now known ∷ sessions
unfolding login
login-succeeds counters p config now known password cell sessions free right =
    ground (arith, free, right)

reset-sessions :
    (hash_password : Units → String) (tenant_id person_id : String) (temporary : Units)
    (db : Accounts) (target : PersonRow)
    → find_person tenant_id person_id db.people ≡ some target
    → ((reset_password hash_password tenant_id person_id temporary db).1.sessions
        ≡ delete_sessions person_id db.sessions)
      × ((reset_password hash_password tenant_id person_id temporary db).1.tenants ≡ db.tenants)
unfolding reset_password
reset-sessions hash_password tenant_id person_id temporary db target h =
    (ground (arith, h), ground (arith, h))

-- The password of a person is reset while a login with the old password is running: if the login has
-- read the row before the reset and goes on behind it, then its session is created and stays, though
-- the reset deleted all others of the person.
pub reset_password-stale_login :
    (kit : Kit) (counters : Counters) (p : Passwords) (config : Config) (now : ℕ)
    (tenant_id : String) (email temporary : Units) (password : String) (cell : Option Cell)
    (db : Accounts) (target : PersonRow)
    → find_person tenant_id target.id db.people ≡ some target
    → find_by_email (normalize_email kit.to_lower_case email) db.people ≡ some target
    → is_blocked counters config now cell ≡ false
    → is_authenticated p (some (read_person db target)) password ≡ true
    → let after = (reset_password kit.hash_password tenant_id target.id temporary db).1 in
      (sign_in kit counters p config now db.people email password cell after).sessions
      ≡ session_of p config now (read_person db target) ∷ delete_sessions target.id db.sessions
unfolding sign_in with_tenant
reset_password-stale_login kit counters p config now tenant_id email temporary password cell db
      target of_id of_email free right =
    let (sessions, tenants) =
      reset-sessions kit.hash_password tenant_id target.id temporary db target of_id in
    rw (of_email, sessions, tenants)
      (login-succeeds counters p config now (read_person db target) password cell
        (delete_sessions target.id db.sessions) free right)
