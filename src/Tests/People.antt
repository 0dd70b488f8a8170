-- ===== src/Tests/People.antt =====
-- People, guards and logins at concrete inputs.
use inmoagent.Prelude.{
  ◌≤◌, length, String, true, false, ◌≡◌, ◌≢◌, refl, none, some, List, [], ◌∷◌, arith, trim,
  trim_start, trim_end, is_space, inr,
}
use inmoagent.Regex.{codes}
use inmoagent.Properties.Neighborhoods.{units_eq}
use inmoagent.Auth.Login.{Session, login, is_blocked, is_authenticated, session_of}
use inmoagent.Auth.People.{
  PersonRow, Accounts, owner, agent, active_owners, is_active_owner, done, deactivate, deactivated,
  to_person_response, find_person, reset_password, delete_sessions, normalize_email, has_id,
}
use inmoagent.Auth.People.Owners.{IsDistinct}
use inmoagent.Auth.People.Requests
use inmoagent.Auth.People.Requests.{
  Request, creates, deactivates, signs_in, signs_out, handle_requests, find_by_email,
  is_tenant_active, sign_in,
}
use inmoagent.Auth.People.Governed.{AreGoverned, handle_requests-owner}
use inmoagent.Auth.Guards
use inmoagent.Auth.Guards.{
  HttpRequest, Actor, by_key, by_person, absent, single, person_session_guard,
  person_or_api_key_guard,
}
use inmoagent.Auth.Guards.Scoped.{Admits, person_or_api_key_guard-Admits}
use inmoagent.Auth.Guards.LockedOut.{deactivate-locked_out}
use inmoagent.Auth.Guards.StaleLogin.{read_person, reset_password-stale_login}
use inmoagent.Tests.Auth.{counters, limits, passwords}

abbrev kit : Requests.Kit
kit = record {
  to_lower_case = λ s. s;
  hash_password = λ s. "hash";
  hash_session_token = λ s. "token";
}

abbrev ana : PersonRow
ana = record {
  id = "p1";
  tenant_id = "t1";
  email = codes "ana";
  password_hash = "h";
  role = owner;
  is_active = true;
}

abbrev bruno : PersonRow
bruno = record {
  id = "p2";
  tenant_id = "t1";
  email = codes "bruno";
  password_hash = "h";
  role = agent;
  is_active = true;
}

abbrev accounts : Accounts
accounts = record {
  tenants = (record { id = "t1"; api_key_hash = "k"; is_active = true }) ∷ [];
  people = ana ∷ bruno ∷ [];
  sessions = (record { token_hash = "token"; person_id = "p2"; expires_at = 50 }) ∷ [];
}

abbrev wishes : List Request
wishes =
    creates "p3" "t1" (codes "carla") none owner (codes "x")
    ∷ deactivates "t1" "p1"
    ∷ signs_out (codes "x")
    ∷ []

few_owners : (t : String) → length (active_owners t accounts.people) ≤ 1
unfolding active_owners is_active_owner
few_owners t = ground arith

distinct : IsDistinct accounts.people
unfolding has_id
distinct = (refl, (refl, tt))

handle_requests-owner_example :
    AreGoverned (handle_requests kit wishes accounts).people
    × ((t o : String)
        → active_owners t accounts.people ≡ o ∷ []
        → active_owners t (handle_requests kit wishes accounts).people ≡ o ∷ [])
handle_requests-owner_example = handle_requests-owner kit wishes accounts (distinct, few_owners)

abbrev guard_kit : Guards.Kit
guard_kit = record {
  hash_session_token = λ s. "token";
  verify_key = λ hash key. true;
  bytes = λ s. s;
  timing_safe_equal = units_eq;
}

abbrev request : HttpRequest
request = record {
  authorization = single (codes "Bearer abc");
  api_key = absent;
  master_key = absent;
  tenant_id = some "t1";
}

abbrev session : Session
session = record { token_hash = "token"; person_id = "p2"; expires_at = 50 }

let_in : person_or_api_key_guard guard_kit 10 request accounts ≡ inr (by_person bruno session)
unfolding person_or_api_key_guard trim trim_start trim_end is_space
let_in = refl

abbrev route : String
route = "t1"

named : route ≢ ""
named e = cc e

person_or_api_key_guard-Admits_example :
    Admits guard_kit 10 request accounts route (by_person bruno session)
person_or_api_key_guard-Admits_example =
    person_or_api_key_guard-Admits guard_kit request accounts route refl 10
      (by_person bruno session) named let_in

abbrev without_bruno : Accounts
without_bruno = record {
  tenants = accounts.tenants;
  people = ana ∷ deactivated bruno ∷ [];
  sessions = [];
}

bruno_leaves :
    deactivate "t1" "p2" accounts
    ≡ (done (to_person_response (deactivated bruno)) none, without_bruno)
unfolding deactivate
bruno_leaves = refl

abbrev ana_session : Session
ana_session = record { token_hash = "token"; person_id = "p1"; expires_at = 50 }

abbrev seen : List PersonRow
seen = ana ∷ []

-- Ana logs in afterwards.
abbrev ana_logs_in : List Request
ana_logs_in = signs_in counters passwords limits 10 seen (codes "ana") "x" none ∷ []

abbrev token_kit : Guards.Kit
token_kit = record {
  hash_session_token = λ s. "t";
  verify_key = λ hash key. true;
  bytes = λ s. s;
  timing_safe_equal = units_eq;
}

abbrev new_session : Session
new_session = record { token_hash = "t"; person_id = "p1"; expires_at = 3600010 }

ana_is_in :
    person_session_guard token_kit 20 request (handle_requests kit ana_logs_in without_bruno)
    ≡ inr (ana, new_session)
unfolding person_session_guard handle_requests Requests.handle_request trim trim_start trim_end
    is_space login units_eq
ana_is_in = refl

deactivate-locked_out_example : ana.id ≢ "p2"
deactivate-locked_out_example =
    deactivate-locked_out kit token_kit "t1" "p2" accounts without_bruno
      (to_person_response (deactivated bruno)) ana_logs_in 20 request ana new_session bruno_leaves
      ana_is_in

bruno_found : find_person "t1" "p2" accounts.people ≡ some bruno
unfolding find_person
bruno_found = refl

bruno_by_email :
    find_by_email (normalize_email kit.to_lower_case (codes "bruno")) accounts.people ≡ some bruno
unfolding find_by_email normalize_email trim trim_start trim_end is_space units_eq
bruno_by_email = refl

not_blocked : is_blocked counters limits 10 none ≡ false
unfolding is_blocked
not_blocked = refl

right_password : is_authenticated passwords (some (read_person accounts bruno)) "old" ≡ true
unfolding is_authenticated is_tenant_active
right_password = refl

reset_password-stale_login_example :
    let after = (reset_password kit.hash_password "t1" "p2" (codes "new") accounts).1 in
    (sign_in kit counters passwords limits 10 accounts.people
      (codes "bruno")
      "old"
      none
      after).sessions
    ≡ session_of passwords limits 10 (read_person accounts bruno)
      ∷ delete_sessions "p2" accounts.sessions
reset_password-stale_login_example =
    reset_password-stale_login kit counters passwords limits 10 "t1" (codes "bruno") (codes "new")
      "old" none accounts bruno bruno_found bruno_by_email not_blocked right_password
