-- ===== src/Auth/People/Written.antt =====
-- How one request changes the table of people.
use inmoagent.Prelude.{
  String, Bool, true, false, ◌&&◌, ◌≡◌, ap, inl, inr, refl, Option, none, some, List, [], ◌∷◌, ◌++◌,
  length, leb, arith, Bool-cases, Option-cases, is_nonempty, is_none, or_value, if◌then◌else◌,
}
use inmoagent.Auth.People.{
  Units, PersonRow, Accounts, DbError, PeopleError, PeopleResult, failed, last_owner, is_owner,
  active_owners, violates_unique, insert_person, find_tenant, find_person, update_person,
  deactivated, rehashed, answer_insert, deactivate, reset_password, bootstrap_owner, create,
  new_person, owner, bootstrap_error, create_error,
}
use inmoagent.Auth.People.Requests.{
  Kit, Request, bootstraps, creates, deactivates, resets, signs_in, signs_out, handle_request,
}

-- The test of `deactivate`.
abbrev pub is_last_owner : String → PersonRow → List PersonRow → Bool
is_last_owner tenant_id target people =
    target.is_active && is_owner target.role && leb (length (active_owners tenant_id people)) 1

-- Not at all, by a row that breaks no key, or in the rows of an id.
pub data Written (before : List PersonRow) : List PersonRow → Type 0 where
  unchanged : (after : List PersonRow) → after ≡ before → Written before after
  appended :
      (after : List PersonRow) (row : PersonRow)
      → violates_unique row before ≡ false
      → after ≡ before ++ row ∷ []
      → Written before after
  deactivates_rows :
      (after : List PersonRow) (tenant_id id : String) (target : PersonRow)
      → find_person tenant_id id before ≡ some target
      → is_last_owner tenant_id target before ≡ false
      → after ≡ update_person id deactivated before
      → Written before after
  rehashes_rows :
      (after : List PersonRow) (id hash : String)
      → after ≡ update_person id (rehashed hash) before
      → Written before after

insert-Written :
    (row : PersonRow) (db : Accounts) → Written db.people (insert_person row db).1.people
unfolding insert_person
insert-Written row db = elim (Bool-cases (violates_unique row db.people)) [
  | inl e ↦ rw e (unchanged _ refl)
  | inr e ↦ elim (Bool-cases (is_none (find_tenant row.tenant_id db.tenants))) [
    | inl e' ↦ rw (e, e') (unchanged _ refl)
    | inr e' ↦ rw (e, e') (appended _ row e refl)
  ]
]

answer-people :
    (error_of : DbError → PeopleError) (row : PersonRow) (temporary : Option Units)
    (inserted : Option DbError × Accounts)
    → (answer_insert error_of row temporary inserted).1 ≡ inserted.1
unfolding answer_insert
answer-people error_of row temporary (none, db) = refl
answer-people error_of row temporary (some e, db) = refl

module _ (kit : Kit) (seen : List PersonRow) (new_id tenant_id : String) (email password : Units)
    (db : Accounts) where
  abbrev row : PersonRow
  row = new_person kit.to_lower_case kit.hash_password new_id tenant_id email password owner

  abbrev bootstrapped : Accounts
  bootstrapped =
      (bootstrap_owner kit.to_lower_case kit.hash_password seen new_id tenant_id email password
        db).1

  bootstrap-late : is_nonempty (active_owners tenant_id seen) ≡ true → bootstrapped ≡ db
  unfolding bootstrap_owner
  bootstrap-late h = ground (arith, h)

  bootstrap-inserts :
      is_nonempty (active_owners tenant_id seen) ≡ false → bootstrapped ≡ (insert_person row db).1
  unfolding bootstrap_owner
  bootstrap-inserts h =
      ground (arith, h, answer-people bootstrap_error row none (insert_person row db))

  bootstrap-Written : Written db.people bootstrapped.people
  bootstrap-Written = elim (Bool-cases (is_nonempty (active_owners tenant_id seen))) [
    | inl e ↦ rw (bootstrap-late e) (unchanged _ refl)
    | inr e ↦ rw (bootstrap-inserts e) (insert-Written row db)
  ]

module _ (tenant_id person_id : String) (db : Accounts) where
  deactivate-absent :
      find_person tenant_id person_id db.people ≡ none
      → (deactivate tenant_id person_id db).1.people ≡ db.people
  unfolding deactivate
  deactivate-absent h = ground (arith, h)

  pub deactivate-last :
      (target : PersonRow)
      → find_person tenant_id person_id db.people ≡ some target
      → is_last_owner tenant_id target db.people ≡ true
      → deactivate tenant_id person_id db ≡ (failed last_owner, db)
  unfolding deactivate
  deactivate-last target h o = ground (arith, h, o)

  deactivate-other :
      (target : PersonRow)
      → find_person tenant_id person_id db.people ≡ some target
      → is_last_owner tenant_id target db.people ≡ false
      → (deactivate tenant_id person_id db).1.people ≡ update_person person_id deactivated db.people
  unfolding deactivate
  deactivate-other target h o = ground (arith, h, o)

  deactivate-Written : Written db.people (deactivate tenant_id person_id db).1.people
  deactivate-Written = elim (Option-cases (find_person tenant_id person_id db.people)) [
    | inl e ↦ unchanged _ (deactivate-absent e)
    | inr (target, e) ↦ elim (Bool-cases (is_last_owner tenant_id target db.people)) [
      | inl e' ↦
          unchanged _
            (ap (λ (r : PeopleResult × Accounts). r.1.people) (deactivate-last target e e'))
      | inr e' ↦ deactivates_rows _ tenant_id person_id target e e' (deactivate-other target e e')
    ]
  ]

  module _ (hash_password : Units → String) (temporary : Units) where
    reset-absent :
        find_person tenant_id person_id db.people ≡ none
        → (reset_password hash_password tenant_id person_id temporary db).1.people ≡ db.people
    unfolding reset_password
    reset-absent h = ground (arith, h)

    reset-found :
        (target : PersonRow)
        → find_person tenant_id person_id db.people ≡ some target
        → (reset_password hash_password tenant_id person_id temporary db).1.people
          ≡ update_person person_id (rehashed (hash_password temporary)) db.people
    unfolding reset_password
    reset-found target h = ground (arith, h)

    reset-Written :
        Written db.people (reset_password hash_password tenant_id person_id temporary db).1.people
    reset-Written = elim (Option-cases (find_person tenant_id person_id db.people)) [
      | inl e ↦ unchanged _ (reset-absent e)
      | inr (target, e) ↦ rehashes_rows _ person_id (hash_password temporary) (reset-found target e)
    ]

pub request-Written :
    (kit : Kit) (request : Request) (db : Accounts)
    → Written db.people (handle_request kit request db).people
unfolding handle_request create
request-Written kit (bootstraps seen new_id tenant_id email password) db =
    bootstrap-Written kit seen new_id tenant_id email password db
request-Written kit (creates new_id tenant_id email password role temporary) db =
    let row =
      new_person kit.to_lower_case kit.hash_password new_id tenant_id email
        (or_value password temporary) role in
    rw
      (answer-people create_error row (if is_none password then some temporary else none)
        (insert_person row db))
      (insert-Written row db)
request-Written kit (deactivates tenant_id person_id) db = deactivate-Written tenant_id person_id db
request-Written kit (resets tenant_id person_id temporary) db =
    reset-Written tenant_id person_id db kit.hash_password temporary
request-Written kit (signs_in counters p config now seen email password cell) db = unchanged _ refl
request-Written kit (signs_out token) db = unchanged _ refl
