-- ===== src/Regex/Spec.antt =====
-- What a pattern means, independently of how it is searched for: the relation between the places
-- where a match begins and ends.
use inmoagent.Prelude.{
  ℕ, ◌<◌, true, Option, none, some, List, [], ◌∷◌, ◌++◌, ◌≡◌, ◌⊎◌, inl, inr, refl, ap, subst, arith,
  length, Elem, Bool-cases, ltb,
}
use inmoagent.Regex.{
  Regex, empty, word_boundary, start, unit, both, either, star, Place, at_boundary, is_start,
  flat_map, behind, test,
}

-- Rounds of `R`, any number of them.
pub data Rounds (R : Place → Place → Type 0) : Place → Place → Type 0 where
  done : {p : Place} → Rounds R p p
  more : {p m q : Place} → R p m → Rounds R m q → Rounds R p q

-- `r` matches from the place `p` to the place `q`.
abbrev pub Matches : Regex → Place → Place → Type 0
Matches empty p q = q ≡ p
Matches word_boundary p q = (at_boundary p ≡ true) × (q ≡ p)
Matches start p q = (is_start p.before ≡ true) × (q ≡ p)
Matches (unit test) p q = (c : ℕ) × (test c ≡ true) × (p.rest ≡ c ∷ q.rest) × (q.before ≡ some c)
Matches (both a b) p q = (m : Place) × Matches a p m × Matches b m q
Matches (either a b) p q = Matches a p q ⊎ Matches b p q
Matches (star a) p q = Rounds (Matches a) p q

-- `p` is a place of the text `s` that stands behind `before`.
abbrev pub Inside : Option ℕ → List ℕ → Place → Type 0
Inside before [] p = p ≡ record { before = before; rest = [] }
Inside before (c ∷ s) p = (p ≡ record { before = before; rest = c ∷ s }) ⊎ Inside (some c) s p

abbrev pub OccursFrom : Regex → Option ℕ → List ℕ → Type 0
OccursFrom r before s = (p q : Place) × Inside before s p × Matches r p q

-- Some part of the text matches.
abbrev pub Occurs : Regex → List ℕ → Type 0
Occurs r text = OccursFrom r none text

module _ {A : Type 0} where
  pub Elem-append_left : (a : A) (xs ys : List A) → Elem a xs → Elem a (xs ++ ys)
  Elem-append_left a [] ys h = elim h [ ]
  Elem-append_left a (x ∷ xs) ys (inl e) = inl e
  Elem-append_left a (x ∷ xs) ys (inr h) = inr (Elem-append_left a xs ys h)

  pub Elem-append_right : (a : A) (xs ys : List A) → Elem a ys → Elem a (xs ++ ys)
  Elem-append_right a [] ys h = h
  Elem-append_right a (x ∷ xs) ys h = inr (Elem-append_right a xs ys h)

  pub Elem-append_inv : (a : A) (xs ys : List A) → Elem a (xs ++ ys) → Elem a xs ⊎ Elem a ys
  Elem-append_inv a [] ys h = inr h
  Elem-append_inv a (x ∷ xs) ys (inl e) = inl (inl e)
  Elem-append_inv a (x ∷ xs) ys (inr h) = elim (Elem-append_inv a xs ys h) [
    | inl k ↦ inl (inr k)
    | inr k ↦ inr k
  ]

pub flat_map_sound :
    (f : Place → List Place) (ps : List Place) (q : Place)
    → Elem q (flat_map f ps)
    → (p : Place) × Elem p ps × Elem q (f p)
unfolding flat_map
flat_map_sound f [] q h = absurd h
flat_map_sound f (p ∷ ps) q h = elim (Elem-append_inv q (f p) (flat_map f ps) h) [
  | inl k ↦ (p, inl refl, k)
  | inr k ↦ let (m, there, e) = flat_map_sound f ps q k in (m, inr there, e)
]

pub flat_map_complete :
    (f : Place → List Place) (ps : List Place) (p q : Place)
    → Elem p ps
    → Elem q (f p)
    → Elem q (flat_map f ps)
unfolding flat_map
flat_map_complete f [] p q there h = elim there [ ]
flat_map_complete f (x ∷ ps) p q (inl e) h =
    Elem-append_left q (f x) (flat_map f ps) (subst (λ y. Elem q (f y)) e h)
flat_map_complete f (x ∷ ps) p q (inr there) h =
    Elem-append_right q (f x) (flat_map f ps) (flat_map_complete f ps p q there h)

pub behind_sound : (p : Place) (qs : List Place) (q : Place) → Elem q (behind p qs) → Elem q qs
unfolding behind
behind_sound p [] q h = h
behind_sound p (x ∷ qs) q h = elim (Bool-cases (ltb (length x.rest) (length p.rest))) [
  | inl e ↦ elim (rw e at h) as (λ _. Elem q (x ∷ qs)) [
    | inl i ↦ inl i
    | inr i ↦ inr (behind_sound p qs q i)
  ]
  | inr e ↦ inr (behind_sound p qs q (rw e at h))
]

pub behind_complete :
    (p : Place) (qs : List Place) (q : Place)
    → Elem q qs
    → length q.rest < length p.rest
    → Elem q (behind p qs)
unfolding behind
behind_complete p [] q h lt = elim h [ ]
behind_complete p (x ∷ qs) q (inl e) lt = rw (e_ltb) (inl e)
  where
    e_ltb : ltb (length x.rest) (length p.rest) ≡ true
    e_ltb = let h = ap (λ y. length y.rest) e in ground arith
behind_complete p (x ∷ qs) q (inr h) lt = elim (Bool-cases (ltb (length x.rest) (length p.rest))) [
  | inl e ↦ rw e (inr (behind_complete p qs q h lt))
  | inr e ↦ rw e (behind_complete p qs q h lt)
]
