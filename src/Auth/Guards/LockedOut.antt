-- ===== src/Auth/Guards/LockedOut.antt =====
-- A person who was deactivated does not get in again.
use inmoagent.Prelude.{
  ℕ, String, true, false, ◌&&◌, ◌≡◌, ◌≢◌, ◌∙◌, ap, inl, inr, refl, none, some, List, [], ◌∷◌, ◌++◌,
  All, All-append, arith, Bool-cases, Option-cases, str_eq, eq_iff,
}
use inmoagent.Auth.Login.{Session}
use inmoagent.Auth.People.{
  PersonRow, Accounts, done, PersonResponse, has_id, find_person, update_person, deactivate,
  deactivated, rehashed,
}
use inmoagent.Auth.People.Requests.{
  Request, bootstraps, creates, deactivates, resets, signs_in, signs_out, handle_request,
  handle_requests,
}
use inmoagent.Auth.People.Owners.{violates-has_id, has_id-update}
use inmoagent.Auth.People.Written.{
  Written, unchanged, appended, deactivates_rows, rehashes_rows, request-Written,
}
use inmoagent.Auth.Guards.{find_by_id, HttpRequest, person_session_guard}
use inmoagent.Auth.Guards.Scoped.{person_session_guard-passes}
use inmoagent.Auth.People.Requests
use inmoagent.Auth.Guards

-- No row of the id is active.
abbrev NoneActive : String → List PersonRow → Type 0
NoneActive id people = All (λ (p : PersonRow). (str_eq p.id id && p.is_active) ≡ false) people

-- The id is taken, and no row of it is active.
abbrev IsLocked : String → List PersonRow → Type 0
IsLocked id people = NoneActive id people × (has_id id people ≡ true)

has_id-append_left :
    (id : String) (people : List PersonRow) (row : PersonRow)
    → has_id id people ≡ true
    → has_id id (people ++ row ∷ []) ≡ true
unfolding has_id
has_id-append_left id [] row h = absurd (cc h)
has_id-append_left id (p ∷ people) row h = ground (arith, h, has_id-append_left id people row)

row-NoneActive :
    (id : String) (people : List PersonRow) (row : PersonRow)
    → has_id id people ≡ true
    → has_id row.id people ≡ false
    → (str_eq row.id id && row.is_active) ≡ false
row-NoneActive id people row taken free = elim (Bool-cases (str_eq row.id id)) [
  | inl e ↦ absurd (cc (taken, free, ap (λ (i : String). has_id i people) ((eq_iff row.id id).0 e)))
  | inr e ↦ rw e refl
]

append-IsLocked :
    (id : String) (people : List PersonRow) (row : PersonRow)
    → has_id row.id people ≡ false
    → IsLocked id people
    → IsLocked id (people ++ row ∷ [])
append-IsLocked id people row free (none_active, taken) = (
  All-append (λ (p : PersonRow). (str_eq p.id id && p.is_active) ≡ false) people (row ∷ [])
      none_active (row-NoneActive id people row taken free, tt),
  has_id-append_left id people row taken,
)

module _ (id i : String) (change : PersonRow → PersonRow)
    (keeps : (p : PersonRow) → (change p).id ≡ p.id)
    (stays : (p : PersonRow) → p.is_active ≡ false → (change p).is_active ≡ false) where
  update-NoneActive :
      (people : List PersonRow)
      → NoneActive id people
      → NoneActive id (update_person i change people)
  unfolding update_person
  update-NoneActive [] h = tt
  update-NoneActive (p ∷ people) h =
      (ground (arith, h.0, keeps p, stays p), update-NoneActive people h.1)

  update-IsLocked :
      (people : List PersonRow) → IsLocked id people → IsLocked id (update_person i change people)
  update-IsLocked people (none_active, taken) =
      (update-NoneActive people none_active, has_id-update i change keeps id people ∙ taken)

-- A deactivation locks the id.
deactivated-NoneActive :
    (id : String) (people : List PersonRow) → NoneActive id (update_person id deactivated people)
unfolding update_person
deactivated-NoneActive id [] = tt
deactivated-NoneActive id (p ∷ people) = (ground arith, deactivated-NoneActive id people)

find-has_id :
    (tenant_id id : String) (people : List PersonRow) (target : PersonRow)
    → find_person tenant_id id people ≡ some target
    → has_id id people ≡ true
unfolding find_person has_id
find-has_id tenant_id id [] target h = absurd (cc h)
find-has_id tenant_id id (p ∷ people) target h =
    ground (arith, h, find-has_id tenant_id id people target)

-- An active person who is found by an id is no row of a locked one.
found-unlocked :
    (id i : String) (people : List PersonRow) {p : PersonRow}
    → NoneActive id people
    → find_by_id i people ≡ some p
    → p.is_active ≡ true
    → p.id ≢ id
unfolding find_by_id
found-unlocked id i [] h found active same = cc found
found-unlocked id i (q ∷ people) {p} h found active same = elim (Bool-cases (str_eq q.id i)) [
  | inl e ↦
      let it : q ≡ p = ground (arith, found, e) in
      ground (arith, h.0, eq_iff q.id id, it, active, same)
  | inr e ↦
      let rest : find_by_id i people ≡ some p = ground (arith, found, e) in
      found-unlocked id i people h.1 rest active same
]

Written-IsLocked :
    (id : String) (before after : List PersonRow)
    → Written before after
    → IsLocked id before
    → IsLocked id after
Written-IsLocked id before after (unchanged _ e) h = rw e h
Written-IsLocked id before after (appended _ row free e) h =
    rw e (append-IsLocked id before row (violates-has_id before row free) h)
Written-IsLocked id before after (deactivates_rows _ tenant_id i target found other e) h =
    rw e (update-IsLocked id i deactivated (λ p. refl) (λ p inactive. refl) before h)
Written-IsLocked id before after (rehashes_rows _ i hash e) h =
    rw e (update-IsLocked id i (rehashed hash) (λ p. refl) (λ p inactive. inactive) before h)

requests-IsLocked :
    (id : String) (kit : Requests.Kit) (requests : List Request) (db : Accounts)
    → IsLocked id db.people
    → IsLocked id (handle_requests kit requests db).people
unfolding handle_requests
requests-IsLocked id kit [] db h = h
requests-IsLocked id kit (request ∷ requests) db h =
    let db' = handle_request kit request db in
    requests-IsLocked id kit requests db'
      (Written-IsLocked id db.people db'.people (request-Written kit request db) h)

deactivate-IsLocked :
    (tenant_id person_id : String) (db after : Accounts) (r : PersonResponse)
    → deactivate tenant_id person_id db ≡ (done r none, after)
    → IsLocked person_id after.people
unfolding deactivate
deactivate-IsLocked tenant_id person_id db after r h =
    elim (Option-cases (find_person tenant_id person_id db.people)) [
      | inl e ↦ absurd (ground (arith, h, e))
      | inr (target, e) ↦
          let people : after.people ≡ update_person person_id deactivated db.people =
            ground (arith, h, e) in
          rw people (
            deactivated-NoneActive person_id db.people,
            has_id-update person_id deactivated (λ p. refl) person_id db.people
                ∙ find-has_id tenant_id person_id db.people target e,
          )
    ]

-- A person who was deactivated is let in no more: whatever is requested afterwards, by anyone, no
-- token gets a request past the guard as this person.
pub deactivate-locked_out :
    (kit : Requests.Kit) (guard_kit : Guards.Kit) (tenant_id person_id : String)
    (db after : Accounts) (r : PersonResponse) (requests : List Request) (now : ℕ)
    (request : HttpRequest) (p : PersonRow) (s : Session)
    → deactivate tenant_id person_id db ≡ (done r none, after)
    → person_session_guard guard_kit now request (handle_requests kit requests after) ≡ inr (p, s)
    → p.id ≢ person_id
deactivate-locked_out kit guard_kit tenant_id person_id db after r requests now request p s h
      passed =
    let locked =
      requests-IsLocked person_id kit requests after
        (deactivate-IsLocked tenant_id person_id db after r h) in
    let signed_in =
      person_session_guard-passes guard_kit now request (handle_requests kit requests after)
        passed in
    found-unlocked person_id s.person_id (handle_requests kit requests after).people locked.0
      signed_in.of_person signed_in.active
