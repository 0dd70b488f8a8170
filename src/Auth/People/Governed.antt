-- ===== src/Auth/People/Governed.antt =====
-- The owner of a tenant, whatever is requested.
use inmoagent.Prelude.{
  ◌≤◌, String, Bool, true, false, ◌&&◌, some, List, [], ◌∷◌, ◌++◌, length, ◌≡◌, inl, inr, refl, sym,
  ◌∙◌, ap, arith, Bool-cases, is_nonempty,
}
use mathlib.Core.List.{append-nil}
use inmoagent.Auth.People.{
  PersonRow, Accounts, is_owner, is_active_owner, active_owners, violates_unique, find_person,
  deactivate, failed, last_owner, deactivated, rehashed,
}
use inmoagent.Auth.People.Owners.{
  IsDistinct, Kept, IsDistinct-append, IsDistinct-update, active_owners-append, update-owners,
  update-owners_same, deactivated-no_owner, no_owner, rehashed-owner, owner-tenant, none_nonempty,
  violates-has_id,
}
use inmoagent.Auth.People.Written.{
  Written, unchanged, appended, deactivates_rows, rehashes_rows, is_last_owner, request-Written,
  deactivate-last,
}
use inmoagent.Auth.People.Requests.{Kit, Request, handle_request, handle_requests}

abbrev blocks_owner : PersonRow → List PersonRow → String → Bool
blocks_owner row people t = is_active_owner t row && is_nonempty (active_owners t people)

-- The row that is written is no second active owner.
append-Kept :
    (t : String) (people : List PersonRow) (row : PersonRow)
    → violates_unique row people ≡ false
    → Kept t people (people ++ row ∷ [])
unfolding violates_unique active_owners
append-Kept t people row h = elim (Bool-cases (is_active_owner t row)) [
  | inl e ↦
      let tenant : row.tenant_id ≡ t = owner-tenant t row e in
      let blocks : blocks_owner row people row.tenant_id ≡ false = ground (arith, h) in
      let empty : active_owners t people ≡ [] =
        none_nonempty (active_owners t people)
          (ground (arith, e, ap (blocks_owner row people) (sym tenant) ∙ blocks)) in
      inr (
        empty,
        row.id,
        active_owners-append t people row
            ∙ ap (λ (l : List String). l ++ active_owners t (row ∷ [])) empty
            ∙ rw e refl,
      )
  | inr e ↦ inl (active_owners-append t people row ∙ rw e (append-nil (active_owners t people)))
]

abbrev pub AreGoverned : List PersonRow → Type 0
AreGoverned people = IsDistinct people × ((t : String) → length (active_owners t people) ≤ 1)

abbrev pub Governs : List PersonRow → List PersonRow → Type 0
Governs before after = IsDistinct after × ((t : String) → Kept t before after)

few-owners :
    (t : String) (target : PersonRow) (people : List PersonRow)
    → length (active_owners t people) ≤ 1
    → is_last_owner t target people ≡ false
    → (target.is_active && is_owner target.role) ≡ false
few-owners t target people few h = ground (arith, few, h)

Written-Governs :
    (before after : List PersonRow)
    → AreGoverned before
    → Written before after
    → Governs before after
Written-Governs before after (d, one) (unchanged _ e) = rw e (d, λ t. inl refl)
Written-Governs before after (d, one) (appended _ row h e) =
    rw e (
      IsDistinct-append before row d (violates-has_id before row h),
      λ t. append-Kept t before row h,
    )
Written-Governs before after (d, one) (deactivates_rows _ tenant_id id target found h e) =
    let other = few-owners tenant_id target before (one tenant_id) h in
    rw e (
      IsDistinct-update id deactivated (λ p. refl) before d,
      λ t. inl (
          update-owners t tenant_id id deactivated before d found (no_owner t target other)
            (deactivated-no_owner t target)),
    )
Written-Governs before after (d, one) (rehashes_rows _ id hash e) = rw e (
  IsDistinct-update id (rehashed hash) (λ p. refl) before d,
  λ t. inl (update-owners_same t id (rehashed hash) (λ p. refl) (rehashed-owner t hash) before),
)

Kept-le-one :
    (t : String) (before after : List PersonRow)
    → Kept t before after
    → length (active_owners t before) ≤ 1
    → length (active_owners t after) ≤ 1
Kept-le-one t before after (inl same) h = rw same h
Kept-le-one t before after (inr (empty, id, one)) h = rw one (omega arith)

Kept-owner :
    (t o : String) (before after : List PersonRow)
    → Kept t before after
    → active_owners t before ≡ o ∷ []
    → active_owners t after ≡ o ∷ []
Kept-owner t o before after (inl same) h = same ∙ h
Kept-owner t o before after (inr (empty, id, one)) h = absurd (cc (empty, h))

Governs-AreGoverned :
    (before after : List PersonRow) → Governs before after → AreGoverned before → AreGoverned after
Governs-AreGoverned before after (d, kept) (d', one) =
    (d, λ t. Kept-le-one t before after (kept t) (one t))

-- Whatever is requested, no tenant ever has two active owners, and no two people have one id; and a
-- tenant that has an active owner keeps this one: it is never deactivated, and never replaced.
pub handle_requests-owner :
    (kit : Kit) (requests : List Request) (db : Accounts)
    → AreGoverned db.people
    → AreGoverned (handle_requests kit requests db).people
      × ((t o : String)
          → active_owners t db.people ≡ o ∷ []
          → active_owners t (handle_requests kit requests db).people ≡ o ∷ [])
unfolding handle_requests
handle_requests-owner kit [] db g = (g, λ t o h. h)
handle_requests-owner kit (request ∷ requests) db g =
    let db' = handle_request kit request db in
    let step = Written-Governs db.people db'.people g (request-Written kit request db) in
    let (later, owners) =
      handle_requests-owner kit requests db' (Governs-AreGoverned db.people db'.people step g) in
    (later, λ t o h. owners t o (Kept-owner t o db.people db'.people (step.1 t) h))

-- The active owner of a tenant cannot be deactivated: the request is refused and nothing changes.
pub deactivate-owner :
    (tenant_id person_id : String) (db : Accounts) {target : PersonRow}
    → AreGoverned db.people
    → find_person tenant_id person_id db.people ≡ some target
    → (target.is_active && is_owner target.role) ≡ true
    → deactivate tenant_id person_id db ≡ (failed last_owner, db)
deactivate-owner tenant_id person_id db {target} g found o =
    deactivate-last tenant_id person_id db target found (ground (arith, o, g.1 tenant_id))
