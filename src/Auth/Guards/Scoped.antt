-- ===== src/Auth/Guards/Scoped.antt =====
-- What a request that passes the guards is proved to have.
use inmoagent.Prelude.{
  ℕ, ◌≤◌, String, true, false, ◌≡◌, ◌≢◌, ◌⊎◌, inl, inr, refl, Option, none, some, List, arith,
  Bool-cases, Option-cases, str_eq, subst, eq_iff,
}
use inmoagent.Auth.Login.{Session}
use inmoagent.Auth.People.{Units, PersonRow, TenantRow, Accounts, find_tenant}
use inmoagent.Auth.People.Requests.{is_tenant_active}
use inmoagent.Auth.Guards.{
  Kit, HttpRequest, Refusal, Actor, by_key, by_person, single, absent, repeated, Header,
  find_session, find_by_id, check_person, check_session, person_session_guard, tenant_scope_guard,
  and_scoped, check_key, tenant_api_key_guard, person_or_api_key_guard, key_actor, person_actor,
  extract_bearer_token, has_api_key, has_bearer,
}

-- A session of the token that the request bears, not expired, of an active person of an active tenant.
pub record IsSignedIn (kit : Kit) (now : ℕ) (request : HttpRequest) (db : Accounts)
    (person : PersonRow) (session : Session) : Type 0 where
  pub token : Units
  pub bears : extract_bearer_token request.authorization ≡ some token
  pub found : find_session (kit.hash_session_token token) db.sessions ≡ some session
  pub of_person : find_by_id session.person_id db.people ≡ some person
  pub live : now ≤ session.expires_at
  pub active : person.is_active ≡ true
  pub tenant_active : is_tenant_active person.tenant_id db.tenants ≡ true

check_person-passes :
    (now : ℕ) (tenants : List TenantRow) (session : Session) (person : PersonRow) {p : PersonRow}
    {s : Session}
    → check_person now tenants session person ≡ inr (p, s)
    → (person ≡ p)
      × (session ≡ s)
      × (now ≤ session.expires_at)
      × (person.is_active ≡ true)
      × (is_tenant_active person.tenant_id tenants ≡ true)
unfolding check_person
check_person-passes now tenants session person h = ground (arith, h)

check_session-passes :
    (now : ℕ) (db : Accounts) (o : Option Session) {p : PersonRow} {s : Session}
    → check_session now db o ≡ inr (p, s)
    → (o ≡ some s)
      × (find_by_id s.person_id db.people ≡ some p)
      × (now ≤ s.expires_at)
      × (p.is_active ≡ true)
      × (is_tenant_active p.tenant_id db.tenants ≡ true)
unfolding check_session
check_session-passes now db none h = absurd (cc h)
check_session-passes now db (some session) {p} {s} h =
    elim (Option-cases (find_by_id session.person_id db.people)) [
      | inl e ↦ absurd (ground (arith, h, e))
      | inr (person, e) ↦
          let checked : check_person now db.tenants session person ≡ inr (p, s) =
            ground (arith, h, e) in
          let (same, same_session, live, active, tenant_active) =
            check_person-passes now db.tenants session person checked in
          ground (arith, e, same, same_session, live, active, tenant_active)
    ]

pub person_session_guard-passes :
    (kit : Kit) (now : ℕ) (request : HttpRequest) (db : Accounts) {p : PersonRow} {s : Session}
    → person_session_guard kit now request db ≡ inr (p, s)
    → IsSignedIn kit now request db p s
unfolding person_session_guard
person_session_guard-passes kit now request db {p} {s} h =
    elim (Option-cases (extract_bearer_token request.authorization)) [
      | inl e ↦ absurd (ground (arith, h, e))
      | inr (token, e) ↦
          let found = find_session (kit.hash_session_token token) db.sessions in
          let checked : check_session now db found ≡ inr (p, s) = ground (arith, h, e) in
          let (of_token, of_person, live, active, tenant_active) =
            check_session-passes now db found checked in
          record {
            token = token;
            bears = e;
            found = of_token;
            of_person = of_person;
            live = live;
            active = active;
            tenant_active = tenant_active;
          }
    ]

-- What the guard is to make sure of, for a route of the tenant `t`.
abbrev pub Admits : Kit → ℕ → HttpRequest → Accounts → String → Actor → Type 0
Admits kit now request db t (by_key tenant) =
    (key : Units) × (request.api_key ≡ single key)
    × (find_tenant t db.tenants ≡ some tenant)
    × (kit.verify_key tenant.api_key_hash key ≡ true)
Admits kit now request db t (by_person person session) =
    IsSignedIn kit now request db person session × (person.tenant_id ≡ t)

and_scoped-passes :
    (request : HttpRequest) (t : String) (r : Refusal ⊎ (PersonRow × Session)) {p : PersonRow}
    {s : Session}
    → request.tenant_id ≡ some t
    → str_eq t "" ≡ false
    → and_scoped request r ≡ inr (p, s)
    → (r ≡ inr (p, s)) × (p.tenant_id ≡ t)
unfolding and_scoped tenant_scope_guard
and_scoped-passes request t (inl refusal) route given h = absurd (cc h)
and_scoped-passes request t (inr (person, session)) route given h =
    ground (arith, route, given, h, eq_iff person.tenant_id t)

check_key-passes :
    (kit : Kit) (key : Units) (o : Option TenantRow) {tenant : TenantRow}
    → check_key kit key o ≡ inr tenant
    → (o ≡ some tenant) × (kit.verify_key tenant.api_key_hash key ≡ true)
unfolding check_key
check_key-passes kit key none h = absurd (cc h)
check_key-passes kit key (some found) h = ground (arith, h)

module _ (kit : Kit) (request : HttpRequest) (db : Accounts) (t : String)
    (route : request.tenant_id ≡ some t) where
  tenant_api_key_guard-passes :
      {tenant : TenantRow}
      → (header : Header) → request.api_key ≡ header
      → tenant_api_key_guard kit request db ≡ inr tenant
      → (key : Units) × (request.api_key ≡ single key)
        × (find_tenant t db.tenants ≡ some tenant)
        × (kit.verify_key tenant.api_key_hash key ≡ true)
  unfolding tenant_api_key_guard
  tenant_api_key_guard-passes absent e h = absurd (ground (arith, e, h))
  tenant_api_key_guard-passes (repeated values) e h = absurd (ground (arith, e, h))
  tenant_api_key_guard-passes {tenant} (single key) e h =
      let checked : check_key kit key (find_tenant t db.tenants) ≡ inr tenant =
        ground (arith, e, h, route) in
      let (found, verified) = check_key-passes kit key (find_tenant t db.tenants) checked in
      (key, e, found, verified)

  key_actor-Admits :
      (now : ℕ) (r : Refusal ⊎ TenantRow) (actor : Actor)
      → tenant_api_key_guard kit request db ≡ r
      → key_actor r ≡ inr actor
      → Admits kit now request db t actor
  key_actor-Admits now (inl refusal) actor e h = absurd (cc h)
  key_actor-Admits now (inr tenant) (by_key other) e h =
      let same : tenant ≡ other = cc h in
      subst (λ (x : TenantRow). Admits kit now request db t (by_key x)) same
        (tenant_api_key_guard-passes request.api_key refl e)
  key_actor-Admits now (inr tenant) (by_person p s) e h = absurd (cc h)

  person_actor-Admits :
      (now : ℕ) (r : Refusal ⊎ (PersonRow × Session)) (actor : Actor)
      → str_eq t "" ≡ false
      → and_scoped request (person_session_guard kit now request db) ≡ r
      → person_actor r ≡ inr actor
      → Admits kit now request db t actor
  person_actor-Admits now (inl refusal) actor given e h = absurd (cc h)
  person_actor-Admits now (inr (p, s)) (by_key tenant) given e h = absurd (cc h)
  person_actor-Admits now (inr (p, s)) (by_person p' s') given e h =
      let (passed, scoped) =
        and_scoped-passes request t (person_session_guard kit now request db) route given e in
      let signed_in = person_session_guard-passes kit now request db passed in
      let same : p ≡ p' = cc h in
      let same_session : s ≡ s' = cc h in
      subst (λ (x : Session). Admits kit now request db t (by_person p' x)) same_session
        (subst (λ (x : PersonRow). Admits kit now request db t (by_person x s)) same
          (signed_in, scoped))

  -- A request to a route of a tenant that passes the guard of the panel bears either a key that
  -- verifies against this tenant's hash, or the token of a live session of an active person of this
  -- tenant, and the tenant is active then: neither a key nor a person of another tenant gets in.
  pub person_or_api_key_guard-Admits :
      (now : ℕ) (actor : Actor)
      → t ≢ ""
      → person_or_api_key_guard kit now request db ≡ inr actor
      → Admits kit now request db t actor
  unfolding person_or_api_key_guard
  person_or_api_key_guard-Admits now actor given h =
      let named : str_eq t "" ≡ false = ground (arith, given, eq_iff t "") in
      elim (Bool-cases (has_api_key request.api_key)) [
        | inl e ↦
            key_actor-Admits now (tenant_api_key_guard kit request db) actor refl
              (ground (arith, e, h))
        | inr e ↦ elim (Bool-cases (has_bearer request.authorization)) [
          | inl e' ↦
              let r = and_scoped request (person_session_guard kit now request db) in
              person_actor-Admits now r actor named refl (ground (arith, e, e', h))
          | inr e' ↦ absurd (ground (arith, e, e', h))
        ]
      ]
