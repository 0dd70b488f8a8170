-- ===== src/Llm/Sanitize/Clean.antt =====
-- What holds of an answer that was checked.
use inmoagent.Prelude.{
  ℕ, ◌≤◌, ◌<◌, String, Bool, true, false, ◌&&◌, Option, none, some, List, [], ◌∷◌, ◌≡◌, refl, arith,
  Elem, All, map, filter, dedupe_from, is_nonempty, trim, ltb, leb, Bool-cases, inl, inr, includes,
}
use inmoagent.Prelude.Int.{ℤ, pos, negsuc}
use inmoagent.Properties.Neighborhoods.{
  includes_text, normalize_neighborhood, text_mentions_neighborhood,
}
use inmoagent.Llm.Sanitize.{
  TextKit, RawExtraction, sanitize_price, sanitize_rooms, sanitize_closed_value, sanitize_lead_name,
  sanitize_neighborhoods, sanitize_extraction, timeline_values, guarantee_values,
  payment_method_values, is_plausible_name, capitalize_each_word,
}

both_true : (a b : Bool) → (a && b) ≡ true → (a ≡ true) × (b ≡ true)
both_true true b h = (refl, h)
both_true false b h = absurd (cc h)

-- What an option holds, if it holds a value.
module _ {A : Type 0} where
  abbrev pub OfSome : (A → Type 0) → Option A → Type 0
  OfSome P none = Unit
  OfSome P (some a) = P a

price_positive : (raw : Option ℤ) → OfSome (λ (p : ℕ). 0 < p) (sanitize_price raw)
unfolding sanitize_price
price_positive none = tt
price_positive (some (negsuc n)) = tt
price_positive (some (pos n)) = elim (Bool-cases (ltb 0 n)) [
  | inl e ↦ rw e (ground (arith, e))
  | inr e ↦ rw e tt
]

rooms_bounded : (raw : Option ℤ) → OfSome (λ (n : ℕ). (1 ≤ n) × (n ≤ 10)) (sanitize_rooms raw)
unfolding sanitize_rooms
rooms_bounded none = tt
rooms_bounded (some (negsuc n)) = tt
rooms_bounded (some (pos n)) = elim (Bool-cases (leb 1 n && leb n 10)) [
  | inl e ↦ rw e (ground (arith, e))
  | inr e ↦ rw e tt
]

module _ (kit : TextKit) where
  -- A value of a closed set.
  abbrev pub IsOneOf : List String → String → Type 0
  IsOneOf allowed v = (u : List ℕ) × (includes_text allowed u ≡ true) × (v ≡ kit.of_units u)

  -- A zone that the text mentions, in its canonical form.
  abbrev pub IsMentioned : List (List ℕ) → List ℕ → String → Type 0
  IsMentioned raw turn_text zone =
      (candidate : List ℕ) × Elem candidate raw
      × (text_mentions_neighborhood kit.normalize_text turn_text candidate ≡ true)
      × (zone ≡ kit.of_units (normalize_neighborhood kit.normalize_text candidate))

  -- A name that stands in the text, and is neither a greeting nor a zone.
  abbrev pub IsName : Option (List ℕ) → List ℕ → String → Type 0
  IsName raw turn_text v =
      (candidate : List ℕ) × (raw ≡ some candidate)
      × (is_plausible_name kit (trim candidate) turn_text ≡ true)
      × (v ≡ kit.of_units (capitalize_each_word kit (trim candidate)))

  sanitize_closed_value-IsOneOf :
      (raw : Option (List ℕ)) (allowed : List String)
      → OfSome (IsOneOf allowed) (sanitize_closed_value kit raw allowed)
  unfolding sanitize_closed_value
  sanitize_closed_value-IsOneOf none allowed = tt
  sanitize_closed_value-IsOneOf (some raw) allowed =
      elim (Bool-cases (is_nonempty raw && includes_text allowed (kit.to_lower_case (trim raw)))) [
        | inl e ↦ rw e (
          kit.to_lower_case (trim raw),
          (both_true (is_nonempty raw) (includes_text allowed (kit.to_lower_case (trim raw))) e).1,
          refl,
        )
        | inr e ↦ rw e tt
      ]

  sanitize_lead_name-IsName :
      (raw : Option (List ℕ)) (turn_text : List ℕ)
      → OfSome (IsName raw turn_text) (sanitize_lead_name kit raw turn_text)
  unfolding sanitize_lead_name
  sanitize_lead_name-IsName none turn_text = tt
  sanitize_lead_name-IsName (some raw) turn_text =
      elim (Bool-cases (is_nonempty raw && is_plausible_name kit (trim raw) turn_text)) [
        | inl e ↦ rw e (
          raw,
          refl,
          (both_true (is_nonempty raw) (is_plausible_name kit (trim raw) turn_text) e).1,
          refl,
        )
        | inr e ↦ rw e tt
      ]

  mentioned :
      (raw all : List (List ℕ)) (turn_text : List ℕ)
      → ((c : List ℕ) → Elem c raw → Elem c all)
      → All (IsMentioned all turn_text) (
          map kit.of_units (
            filter is_nonempty (
              map
                (normalize_neighborhood kit.normalize_text)
                (filter (text_mentions_neighborhood kit.normalize_text turn_text) raw))))
  mentioned [] all turn_text sub = tt
  mentioned (c ∷ raw) all turn_text sub =
      let rest = mentioned raw all turn_text (λ x there. sub x (inr there)) in
      elim (Bool-cases (text_mentions_neighborhood kit.normalize_text turn_text c)) [
        | inr e ↦ rw e rest
        | inl e ↦ elim (Bool-cases (is_nonempty (normalize_neighborhood kit.normalize_text c))) [
          | inr f ↦ rw e (rw f rest)
          | inl f ↦ rw e (rw f ((c, sub c (inl refl), e, refl), rest))
        ]
      ]

  dedupe-All :
      (P : String → Type 0) (seen xs : List String) → All P xs → All P (dedupe_from seen xs)
  dedupe-All P seen [] h = tt
  dedupe-All P seen (x ∷ xs) h = elim (Bool-cases (includes seen x)) [
    | inl e ↦ rw e (dedupe-All P seen xs h.1)
    | inr e ↦ rw e (h.0, dedupe-All P (x ∷ seen) xs h.1)
  ]

  sanitize_neighborhoods-IsMentioned :
      (raw : List (List ℕ)) (turn_text : List ℕ)
      → All (IsMentioned raw turn_text) (sanitize_neighborhoods kit raw turn_text)
  unfolding sanitize_neighborhoods
  sanitize_neighborhoods-IsMentioned raw turn_text =
      dedupe-All (IsMentioned raw turn_text) [] _ (mentioned raw raw turn_text (λ c there. there))

  -- What the rest of the program may rely on in an answer of the model: its price is positive and
  -- its rooms are one to ten; its time, guarantee and payment are each of their closed set; each of
  -- its zones is one that the model named and the text of the turn mentions, in canonical form; and
  -- its name is one that the model gave, plausible as a name and mentioned in that text.
  pub sanitize_extraction_clean :
      (raw : RawExtraction) (turn_text : List ℕ)
      → let e = sanitize_extraction kit raw turn_text in
        OfSome (λ (p : ℕ). 0 < p) e.max_price
        × OfSome (λ (n : ℕ). (1 ≤ n) × (n ≤ 10)) e.min_rooms
        × OfSome (IsOneOf timeline_values) e.timeline
        × OfSome (IsOneOf guarantee_values) e.guarantee
        × OfSome (IsOneOf payment_method_values) e.payment_method
        × All (IsMentioned raw.neighborhoods turn_text) e.neighborhoods
        × OfSome (IsName raw.name turn_text) e.name
  unfolding sanitize_extraction
  sanitize_extraction_clean raw turn_text = (
    price_positive raw.max_price,
    rooms_bounded raw.min_rooms,
    sanitize_closed_value-IsOneOf raw.timeline timeline_values,
    sanitize_closed_value-IsOneOf raw.guarantee guarantee_values,
    sanitize_closed_value-IsOneOf raw.payment_method payment_method_values,
    sanitize_neighborhoods-IsMentioned raw.neighborhoods turn_text,
    sanitize_lead_name-IsName raw.name turn_text,
  )
