-- ===== src/Auth/People/Owners.antt =====
-- Lists of people: their ids, and the active owners of a tenant among them.
use inmoagent.Prelude.{
  String, Bool, true, false, ◌&&◌, ◌||◌, none, some, List, [], ◌∷◌, ◌++◌, ◌≡◌, ◌⊎◌, inl, inr, refl,
  sym, ◌∙◌, ap, arith, Bool-cases, str_eq, eq_iff, is_nonempty,
}
use inmoagent.Auth.People.{
  PersonRow, is_owner, is_active_owner, active_owners, has_id, violates_unique, find_person,
  update_person, deactivated, rehashed,
}

abbrev pub IsDistinct : List PersonRow → Type 0
IsDistinct [] = Unit
IsDistinct (p ∷ people) = (has_id p.id people ≡ false) × IsDistinct people

-- A tenant's active owners are the same as before, or there were none and there is one.
abbrev pub Kept : String → List PersonRow → List PersonRow → Type 0
Kept t before after =
    (active_owners t after ≡ active_owners t before)
    ⊎ ((active_owners t before ≡ []) × (id : String) × (active_owners t after ≡ id ∷ []))

pub or_false : (a b : Bool) → (a || b) ≡ false → (a ≡ false) × (b ≡ false)
or_false true b h = absurd (cc h)
or_false false b h = (refl, h)

str_eq_sym : (a b : String) → str_eq a b ≡ false → str_eq b a ≡ false
str_eq_sym a b h = ground (arith, eq_iff a b, eq_iff b a)

pub has_id-append :
    (id : String) (people : List PersonRow) (row : PersonRow)
    → has_id id people ≡ false
    → str_eq row.id id ≡ false
    → has_id id (people ++ row ∷ []) ≡ false
unfolding has_id
has_id-append id [] row h other = rw other
has_id-append id (p ∷ people) row h other =
    let (this, rest) = or_false (str_eq p.id id) (has_id id people) h in
    rw (this, has_id-append id people row rest other)

pub IsDistinct-append :
    (people : List PersonRow) (row : PersonRow)
    → IsDistinct people
    → has_id row.id people ≡ false
    → IsDistinct (people ++ row ∷ [])
unfolding has_id
IsDistinct-append [] row d h = (refl, tt)
IsDistinct-append (p ∷ people) row d h =
    let (this, rest) = or_false (str_eq p.id row.id) (has_id row.id people) h in
    (
      has_id-append p.id people row d.0 (str_eq_sym p.id row.id this),
      IsDistinct-append people row d.1 rest,
    )

pub active_owners-append :
    (t : String) (people : List PersonRow) (row : PersonRow)
    → active_owners t (people ++ row ∷ []) ≡ active_owners t people ++ active_owners t (row ∷ [])
unfolding active_owners
active_owners-append t [] row = refl
active_owners-append t (p ∷ people) row = ground (arith, active_owners-append t people row)

module _ (id : String) (change : PersonRow → PersonRow)
    (keeps : (p : PersonRow) → (change p).id ≡ p.id) where
  pub has_id-update :
      (i : String) (people : List PersonRow)
      → has_id i (update_person id change people) ≡ has_id i people
  unfolding has_id update_person
  has_id-update i [] = refl
  has_id-update i (p ∷ people) = ground (arith, keeps p, has_id-update i people)

  pub IsDistinct-update :
      (people : List PersonRow) → IsDistinct people → IsDistinct (update_person id change people)
  unfolding update_person
  IsDistinct-update [] d = tt
  IsDistinct-update (p ∷ people) d = elim (Bool-cases (str_eq p.id id)) [
    | inl e ↦ rw e (
      ap (λ (i : String). has_id i (update_person id change people)) (keeps p)
          ∙ has_id-update p.id people
          ∙ d.0,
      IsDistinct-update people d.1,
    )
    | inr e ↦ rw e (has_id-update p.id people ∙ d.0, IsDistinct-update people d.1)
  ]

update-absent :
    (id : String) (change : PersonRow → PersonRow) (people : List PersonRow)
    → has_id id people ≡ false
    → update_person id change people ≡ people
unfolding has_id update_person
update-absent id change [] h = refl
update-absent id change (p ∷ people) h =
    let (this, rest) = or_false (str_eq p.id id) (has_id id people) h in
    rw this (ap (λ (l : List PersonRow). p ∷ l) (update-absent id change people rest))

find-absent :
    (tenant_id id : String) (people : List PersonRow)
    → has_id id people ≡ false
    → find_person tenant_id id people ≡ none
unfolding has_id find_person
find-absent tenant_id id [] h = refl
find-absent tenant_id id (p ∷ people) h =
    let (this, rest) = or_false (str_eq p.id id) (has_id id people) h in
    ground (arith, this, find-absent tenant_id id people rest)

-- Who is no active owner of `t` may be written, by a change that makes no one an active owner.
pub update-owners :
    (t tenant_id id : String) (change : PersonRow → PersonRow) (people : List PersonRow)
    {target : PersonRow}
    → IsDistinct people
    → find_person tenant_id id people ≡ some target
    → is_active_owner t target ≡ false
    → is_active_owner t (change target) ≡ false
    → active_owners t (update_person id change people) ≡ active_owners t people
unfolding find_person update_person active_owners
update-owners t tenant_id id change [] d found h h' = absurd (cc found)
update-owners t tenant_id id change (p ∷ people) {target} d found h h' =
    elim (Bool-cases (str_eq p.id id)) [
      | inl e ↦
          let absent : has_id id people ≡ false =
            ap (λ (i : String). has_id i people) (sym ((eq_iff p.id id).0 e)) ∙ d.0 in
          elim (Bool-cases (str_eq p.tenant_id tenant_id)) [
            | inl e' ↦
                let same : p ≡ target = ground (arith, found, e, e') in
                let was : is_active_owner t p ≡ false = ap (is_active_owner t) same ∙ h in
                let is : is_active_owner t (change p) ≡ false =
                  ap (λ (q : PersonRow). is_active_owner t (change q)) same ∙ h' in
                rw (e, update-absent id change people absent, was, is) refl
            | inr e' ↦ absurd (ground (arith, found, e, e', find-absent tenant_id id people absent))
          ]
      | inr e ↦
          let rest : find_person tenant_id id people ≡ some target = ground (arith, found, e) in
          let ih = update-owners t tenant_id id change people d.1 rest h h' in ground (arith, e, ih)
    ]

-- A change that leaves the id and who is an active owner alone.
pub update-owners_same :
    (t id : String) (change : PersonRow → PersonRow)
    → ((p : PersonRow) → (change p).id ≡ p.id)
    → ((p : PersonRow) → is_active_owner t (change p) ≡ is_active_owner t p)
    → (people : List PersonRow)
    → active_owners t (update_person id change people) ≡ active_owners t people
unfolding update_person active_owners
update-owners_same t id change keeps same [] = refl
update-owners_same t id change keeps same (p ∷ people) =
    ground (arith, keeps p, same p, update-owners_same t id change keeps same people)

pub deactivated-no_owner : (t : String) (p : PersonRow) → is_active_owner t (deactivated p) ≡ false
unfolding is_active_owner
deactivated-no_owner t p = ground arith

pub no_owner :
    (t : String) (p : PersonRow)
    → (p.is_active && is_owner p.role) ≡ false
    → is_active_owner t p ≡ false
unfolding is_active_owner
no_owner t p h = ground (arith, h)

pub rehashed-owner :
    (t : String) (hash : String) (p : PersonRow)
    → is_active_owner t (rehashed hash p) ≡ is_active_owner t p
unfolding is_active_owner
rehashed-owner t hash p = refl

pub owner-tenant : (t : String) (p : PersonRow) → is_active_owner t p ≡ true → p.tenant_id ≡ t
unfolding is_active_owner
owner-tenant t p h = ground (arith, h, eq_iff p.tenant_id t)

pub none_nonempty : (ids : List String) → is_nonempty ids ≡ false → ids ≡ []
none_nonempty [] h = refl
none_nonempty (id ∷ ids) h = absurd (cc h)

pub violates-has_id :
    (people : List PersonRow) (row : PersonRow)
    → violates_unique row people ≡ false
    → has_id row.id people ≡ false
unfolding violates_unique
violates-has_id people row h = elim (Bool-cases (has_id row.id people)) [
  | inl e ↦ ground (arith, h, e)
  | inr e ↦ e
]
