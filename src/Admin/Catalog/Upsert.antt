-- ===== src/Admin/Catalog/Upsert.antt =====
-- Importing a row again changes nothing that is shown.
use inmoagent.Prelude.{
  ℕ, suc, map, String, true, false, ◌≡◌, refl, ◌∙◌, ap, Option, none, some, List, [], ◌∷◌, arith,
  Bool-cases, inl, inr, or_value, or_else, eq_iff, if◌then◌else◌,
}
use inmoagent.Regex.{codes}
use inmoagent.Properties.Neighborhoods.{units_eq}
use inmoagent.Admin.Import.{Units, PropertyInput}
use inmoagent.Admin.Catalog.{
  Fresh, Photo, PropertyRow, numbered, replaces_photos, created_row, upserted_row, has_ref,
  upsert_by_external_ref,
}

or_else-twice : {A : Type 0} (new old : Option A) → or_else new (or_else new old) ≡ or_else new old
or_else-twice none old = refl
or_else-twice (some a) old = refl

or_else_self : {A : Type 0} (a : Option A) → or_else a a ≡ a
or_else_self none = refl
or_else_self (some a) = refl

or_value-twice :
    {A : Type 0} (new : Option A) (old : A) → or_value new (or_value new old) ≡ or_value new old
or_value-twice none old = refl
or_value-twice (some a) old = refl

-- A photo, but for its id, and a row, but for when it was changed and for the ids of its photos.
abbrev pub shown_photo : Photo → Photo
shown_photo p = record p { id = "" }

abbrev pub shown : {Num : Type 0} → PropertyRow Num → PropertyRow Num
shown r = record r { photos = map shown_photo r.photos; updated_at = 0 }

abbrev photos_after : (ℕ → String) → Option (List Units) → List Photo → List Photo
photos_after photo_id urls old =
    if replaces_photos urls then numbered photo_id 0 (or_value urls []) else old

-- The urls and their positions do not depend on the ids.
numbered-shown :
    (a b : ℕ → String) (n : ℕ) (urls : List Units)
    → map shown_photo (numbered a n urls) ≡ map shown_photo (numbered b n urls)
unfolding numbered
numbered-shown a b n [] = refl
numbered-shown a b n (url ∷ urls) =
    ap (λ (l : List Photo). record { id = ""; url = url; position = n } ∷ l)
      (numbered-shown a b (suc n) urls)

photos-twice :
    (a b : ℕ → String) (urls : Option (List Units)) (old : List Photo)
    → map shown_photo (photos_after b urls (photos_after a urls old))
      ≡ map shown_photo (photos_after a urls old)
photos-twice a b none old = refl
photos-twice a b (some []) old = refl
photos-twice a b (some (url ∷ urls)) old = numbered-shown b a 0 (url ∷ urls)

photos-created :
    (a b : ℕ → String) (urls : Option (List Units))
    → map shown_photo (photos_after b urls (numbered a 0 (or_value urls [])))
      ≡ map shown_photo (numbered a 0 (or_value urls []))
unfolding numbered
photos-created a b none = refl
photos-created a b (some []) = refl
photos-created a b (some (url ∷ urls)) = numbered-shown b a 0 (url ∷ urls)

units_eq_refl : (s : Units) → units_eq s s ≡ true
unfolding units_eq
units_eq_refl [] = refl
units_eq_refl (c ∷ s) = ground (arith, units_eq_refl s)

module _ {Num : Type 0} (normalize_neighborhood : Units → Units) (tenant_id : String)
    (input : PropertyInput Num) where
  row-twice :
      (a b : Fresh) (r : PropertyRow Num)
      → shown (
          upserted_row normalize_neighborhood tenant_id b input
            (upserted_row normalize_neighborhood tenant_id a input r))
        ≡ shown (upserted_row normalize_neighborhood tenant_id a input r)
  unfolding upserted_row
  row-twice a b r = λ i. record (shown (upserted_row normalize_neighborhood tenant_id a input r)) {
    description = or_else-twice input.description r.description i;
    expenses = or_else-twice input.expenses r.expenses i;
    city = or_else-twice input.city r.city i;
    address = or_else-twice input.address r.address i;
    rooms = or_else-twice input.rooms r.rooms i;
    bedrooms = or_else-twice input.bedrooms r.bedrooms i;
    bathrooms = or_else-twice input.bathrooms r.bathrooms i;
    area_m2 = or_else-twice input.area_m2 r.area_m2 i;
    pets_allowed = or_else-twice input.pets_allowed r.pets_allowed i;
    listing_url = or_else-twice input.listing_url r.listing_url i;
    currency = or_value-twice input.currency r.currency i;
    garage = or_value-twice input.garage r.garage i;
    features = or_value-twice input.features r.features i;
    photos = photos-twice a.photo_id b.photo_id input.photo_urls r.photos i;
  }

  row-created :
      (a b : Fresh)
      → shown (
          upserted_row normalize_neighborhood tenant_id b input
            (created_row normalize_neighborhood tenant_id a (some input.external_ref) input))
        ≡ shown (created_row normalize_neighborhood tenant_id a (some input.external_ref) input)
  unfolding upserted_row created_row
  row-created a b = λ i.
      record (shown
        (created_row normalize_neighborhood tenant_id a (some input.external_ref) input)) {
          description = or_else_self input.description i;
          expenses = or_else_self input.expenses i;
          city = or_else_self input.city i;
          address = or_else_self input.address i;
          rooms = or_else_self input.rooms i;
          bedrooms = or_else_self input.bedrooms i;
          bathrooms = or_else_self input.bathrooms i;
          area_m2 = or_else_self input.area_m2 i;
          pets_allowed = or_else_self input.pets_allowed i;
          listing_url = or_else_self input.listing_url i;
          currency = or_value-twice input.currency (codes "USD") i;
          garage = or_value-twice input.garage false i;
          features = or_value-twice input.features [] i;
          photos = photos-created a.photo_id b.photo_id input.photo_urls i;
        }

  created-has_ref :
      (a : Fresh)
      → has_ref normalize_neighborhood tenant_id input.external_ref
          (created_row normalize_neighborhood tenant_id a (some input.external_ref) input)
        ≡ true
  unfolding has_ref created_row
  created-has_ref a = ground (arith, eq_iff tenant_id tenant_id, units_eq_refl input.external_ref)

  upserted-has_ref :
      (a : Fresh) (r : PropertyRow Num)
      → has_ref normalize_neighborhood tenant_id input.external_ref
          (upserted_row normalize_neighborhood tenant_id a input r)
        ≡ has_ref normalize_neighborhood tenant_id input.external_ref r
  unfolding has_ref upserted_row
  upserted-has_ref a r = refl

  -- A row that is imported again shows the table as it was after the first import, whatever it was before
  -- it: every column but the time of the last change, and the urls and positions of the photos, which the
  -- database writes anew with whatever times and ids.
  pub upsert_by_external_ref-twice :
      (a b : Fresh) (table : List (PropertyRow Num))
      → map shown (
          upsert_by_external_ref normalize_neighborhood tenant_id b input
            (upsert_by_external_ref normalize_neighborhood tenant_id a input table))
        ≡ map shown (upsert_by_external_ref normalize_neighborhood tenant_id a input table)
  unfolding upsert_by_external_ref
  upsert_by_external_ref-twice a b [] =
      rw (created-has_ref a) (ap (λ (r : PropertyRow Num). r ∷ []) (row-created a b))
  upsert_by_external_ref-twice a b (r ∷ table) =
      elim (Bool-cases (has_ref normalize_neighborhood tenant_id input.external_ref r)) [
        | inl e ↦ rw e (
            rw (upserted-has_ref a r ∙ e)
              (ap (λ (q : PropertyRow Num). q ∷ map shown table) (row-twice a b r)))
        | inr e ↦ rw e (
            rw e (
              ap (λ (l : List (PropertyRow Num)). shown r ∷ l)
                (upsert_by_external_ref-twice a b table)))
      ]
