-- ===== src/Regex/Exact.antt =====
-- The search for a match against the meaning of a pattern.
use inmoagent.Prelude.{
  ℕ, zero, suc, ◌≤◌, ◌<◌, Bool, true, false, Option, none, some, List, [], ◌∷◌, ◌≡◌, ◌↔◌, ◌⊎◌, inl,
  inr, refl, sym, ap, ◌∙◌, subst, arith, length, Elem, is_nonempty, ◌||◌,
}
use inmoagent.Regex.{
  Regex, empty, word_boundary, start, unit, both, either, star, Place, at_boundary, is_start,
  here_if, unit_ends, flat_map, behind, star_ends, ends, test_from, test, test_any,
}
use inmoagent.Regex.Spec.{
  Rounds, done, more, Matches, Inside, OccursFrom, Occurs, Elem-append_left, Elem-append_right,
  Elem-append_inv, flat_map_sound, flat_map_complete, behind_sound, behind_complete,
}

here_if_sound : (b : Bool) (p q : Place) → Elem q (here_if b p) → (b ≡ true) × (q ≡ p)
here_if_sound true p q (inl e) = (refl, e)
here_if_sound true p q (inr x) = elim x [ ]
here_if_sound false p q h = absurd h

here_if_complete : (b : Bool) (p q : Place) → b ≡ true → q ≡ p → Elem q (here_if b p)
here_if_complete b p q e same = rw e (inl same)

unit_sound :
    (test : ℕ → Bool) (s : List ℕ) (q : Place)
    → Elem q (unit_ends test s)
    → (c : ℕ) × (test c ≡ true) × (s ≡ c ∷ q.rest) × (q.before ≡ some c)
unfolding unit_ends
unit_sound test [] q h = absurd h
unit_sound test (c ∷ s) q h =
    let (e, same) = here_if_sound (test c) (record { before = some c; rest = s }) q h in
    (c, e, ap (λ (y : Place). c ∷ y.rest) (sym same), ap (λ (y : Place). y.before) same)

unit_complete :
    (test : ℕ → Bool) (s : List ℕ) (q : Place) (c : ℕ)
    → test c ≡ true
    → s ≡ c ∷ q.rest
    → q.before ≡ some c
    → Elem q (unit_ends test s)
unfolding unit_ends
unit_complete test s q c e shape last = rw shape (
    here_if_complete (test c) (record { before = some c; rest = q.rest }) q e
      (ground (arith, last)))

progress_trans :
    (p m q : Place)
    → (m ≡ p) ⊎ (length m.rest < length p.rest)
    → (q ≡ m) ⊎ (length q.rest < length m.rest)
    → (q ≡ p) ⊎ (length q.rest < length p.rest)
progress_trans p m q (inl e) (inl e') = inl (e' ∙ e)
progress_trans p m q (inl e) (inr lt) = inr (subst (λ y. length q.rest < length y.rest) e lt)
progress_trans p m q (inr lt) (inl e) = inr (subst (λ y. length y.rest < length p.rest) (sym e) lt)
progress_trans p m q (inr lt) (inr lt') = inr (omega arith)

module _ (R : Place → Place → Type 0) (f : Place → List Place) where
  star_sound :
      ((p q : Place) → Elem q (f p) → R p q)
      → (fuel : ℕ) (p q : Place) → Elem q (star_ends fuel f p)
      → Rounds R p q
  unfolding star_ends
  star_sound sound zero p q (inl e) = subst (λ y. Rounds R p y) (sym e) done
  star_sound sound zero p q (inr x) = elim x [ ]
  star_sound sound (suc fuel) p q h =
      elim (Elem-append_inv q (flat_map (star_ends fuel f) (behind p (f p))) (p ∷ []) h) [
        | inl k ↦
            let (m, there, e) = flat_map_sound (star_ends fuel f) (behind p (f p)) q k in
            more (sound p m (behind_sound p (f p) m there)) (star_sound sound fuel m q e)
        | inr (inl e) ↦ subst (λ y. Rounds R p y) (sym e) done
        | inr (inr x) ↦ elim x [ ]
      ]

  star_here : (fuel : ℕ) (p : Place) → Elem p (star_ends fuel f p)
  unfolding star_ends
  star_here zero p = inl refl
  star_here (suc fuel) p =
      Elem-append_right p (flat_map (star_ends fuel f) (behind p (f p))) (p ∷ []) (inl refl)

  star_step :
      (fuel : ℕ) (p m q : Place)
      → length p.rest ≤ fuel
      → Elem m (f p)
      → length m.rest < length p.rest
      → ((fuel : ℕ) → length m.rest ≤ fuel → Elem q (star_ends fuel f m))
      → Elem q (star_ends fuel f p)
  unfolding star_ends
  star_step zero p m q enough there lt later = absurd (omega arith)
  star_step (suc fuel) p m q enough there lt later =
      Elem-append_left q (flat_map (star_ends fuel f) (behind p (f p))) (p ∷ []) (
        flat_map_complete (star_ends fuel f) (behind p (f p)) m q
          (behind_complete p (f p) m there lt) (later fuel (omega arith)))

  -- Rounds that take nothing are left out.
  star_complete :
      ((p q : Place) → R p q → Elem q (f p))
      → ((p q : Place) → R p q → (q ≡ p) ⊎ (length q.rest < length p.rest))
      → {p q : Place} → Rounds R p q
      → (p' : Place) → p ≡ p'
      → (fuel : ℕ) → length p'.rest ≤ fuel
      → Elem q (star_ends fuel f p')
  star_complete complete progress (done {p}) p' e fuel enough =
      subst (λ y. Elem p (star_ends fuel f y)) e (star_here fuel p)
  star_complete complete progress (more {p} {m} {q} step rounds) p' e fuel enough =
      elim (progress p m step) [
        | inl same ↦ star_complete complete progress rounds p' (same ∙ e) fuel enough
        | inr lt ↦
            star_step fuel p' m q enough (subst (λ y. Elem m (f y)) e (complete p m step))
              (subst (λ y. length m.rest < length y.rest) e lt)
              (star_complete complete progress rounds m refl)
      ]

  Rounds-progress :
      ((p q : Place) → R p q → (q ≡ p) ⊎ (length q.rest < length p.rest))
      → {p q : Place} → Rounds R p q
      → (q ≡ p) ⊎ (length q.rest < length p.rest)
  Rounds-progress progress done = inl refl
  Rounds-progress progress (more {p} {m} {q} step rounds) =
      progress_trans p m q (progress p m step) (Rounds-progress progress rounds)

-- A match ends where it begins or takes a unit.
Matches-progress :
    (r : Regex) (p q : Place) → Matches r p q → (q ≡ p) ⊎ (length q.rest < length p.rest)
Matches-progress empty p q h = inl h
Matches-progress word_boundary p q h = inl h.1
Matches-progress start p q h = inl h.1
Matches-progress (unit test) p q (c, e, shape, last) =
    inr (omega (arith, ap (λ (s : List ℕ). length s) shape))
Matches-progress (both a b) p q (m, h, k) =
    progress_trans p m q (Matches-progress a p m h) (Matches-progress b m q k)
Matches-progress (either a b) p q (inl h) = Matches-progress a p q h
Matches-progress (either a b) p q (inr h) = Matches-progress b p q h
Matches-progress (star a) p q h = Rounds-progress (Matches a) (ends a) (Matches-progress a) h

pub ends_sound : (r : Regex) (p q : Place) → Elem q (ends r p) → Matches r p q
unfolding ends
ends_sound empty p q (inl e) = e
ends_sound empty p q (inr x) = elim x [ ]
ends_sound word_boundary p q h = here_if_sound (at_boundary p) p q h
ends_sound start p q h = here_if_sound (is_start p.before) p q h
ends_sound (unit test) p q h = unit_sound test p.rest q h
ends_sound (both a b) p q h =
    let (m, there, e) = flat_map_sound (ends b) (ends a p) q h in
    (m, ends_sound a p m there, ends_sound b m q e)
ends_sound (either a b) p q h = elim (Elem-append_inv q (ends a p) (ends b p) h) [
  | inl k ↦ inl (ends_sound a p q k)
  | inr k ↦ inr (ends_sound b p q k)
]
ends_sound (star a) p q h = star_sound (Matches a) (ends a) (ends_sound a) (length p.rest) p q h

pub ends_complete : (r : Regex) (p q : Place) → Matches r p q → Elem q (ends r p)
unfolding ends
ends_complete empty p q e = inl e
ends_complete word_boundary p q (b, e) = here_if_complete (at_boundary p) p q b e
ends_complete start p q (b, e) = here_if_complete (is_start p.before) p q b e
ends_complete (unit test) p q (c, e, shape, last) = unit_complete test p.rest q c e shape last
ends_complete (both a b) p q (m, h, k) =
    flat_map_complete (ends b) (ends a p) m q (ends_complete a p m h) (ends_complete b m q k)
ends_complete (either a b) p q (inl h) =
    Elem-append_left q (ends a p) (ends b p) (ends_complete a p q h)
ends_complete (either a b) p q (inr h) =
    Elem-append_right q (ends a p) (ends b p) (ends_complete b p q h)
ends_complete (star a) p q h =
    star_complete (Matches a) (ends a) (ends_complete a) (Matches-progress a) h p refl
      (length p.rest) (omega arith)

non_nil : (q : Place) (ps : List Place) → Elem q ps → is_nonempty ps ≡ true
non_nil q [] h = absurd h
non_nil q (p ∷ ps) h = refl

some_end : (ps : List Place) → is_nonempty ps ≡ true → (q : Place) × Elem q ps
some_end [] h = absurd (cc h)
some_end (p ∷ ps) h = (p, inl refl)

pub or_true : (a b : Bool) → (a || b) ≡ true → (a ≡ true) ⊎ (b ≡ true)
or_true true b h = inl refl
or_true false b h = inr h

found_here : (r : Regex) (p : Place) → is_nonempty (ends r p) ≡ true → (q : Place) × Matches r p q
found_here r p h = let (q, there) = some_end (ends r p) h in (q, ends_sound r p q there)

test_from_sound :
    (r : Regex) (before : Option ℕ) (s : List ℕ)
    → test_from r before s ≡ true
    → OccursFrom r before s
unfolding test_from
test_from_sound r before [] h =
    let p : Place = record { before = before; rest = [] } in
    let (q, m) = found_here r p h in (p, q, refl, m)
test_from_sound r before (c ∷ s) h =
    let p : Place = record { before = before; rest = c ∷ s } in
    elim (or_true (is_nonempty (ends r p)) (test_from r (some c) s) h) [
      | inl now ↦ let (q, m) = found_here r p now in (p, q, inl refl, m)
      | inr later ↦
          let (p', q, inside, m) = test_from_sound r (some c) s later in (p', q, inr inside, m)
    ]

matching : (r : Regex) (p p' q : Place) → p' ≡ p → Matches r p' q → is_nonempty (ends r p) ≡ true
matching r p p' q e m = non_nil q (ends r p) (ends_complete r p q (subst (λ y. Matches r y q) e m))

test_from_complete :
    (r : Regex) (before : Option ℕ) (s : List ℕ) (p q : Place)
    → Inside before s p
    → Matches r p q
    → test_from r before s ≡ true
unfolding test_from
test_from_complete r before [] p q e m = matching r (record { before = before; rest = [] }) p q e m
test_from_complete r before (c ∷ s) p q (inl e) m =
    rw (matching r (record { before = before; rest = c ∷ s }) p q e m)
test_from_complete r before (c ∷ s) p q (inr inside) m =
    ground (arith, test_from_complete r (some c) s p q inside m)

-- The search finds a match exactly where one occurs in the text.
pub test-iff-Occurs : (r : Regex) (text : List ℕ) → (test r text ≡ true) ↔ Occurs r text
unfolding test
test-iff-Occurs r text =
    (test_from_sound r none text, λ (p, q, inside, m). test_from_complete r none text p q inside m)

test_any_sound :
    (rs : List Regex) (text : List ℕ)
    → test_any rs text ≡ true
    → (r : Regex) × Elem r rs × Occurs r text
unfolding test_any
test_any_sound [] text h = absurd (cc h)
test_any_sound (r ∷ rs) text h = elim (or_true (test r text) (test_any rs text) h) [
  | inl e ↦ (r, inl refl, (test-iff-Occurs r text).0 e)
  | inr e ↦ let (r', there, o) = test_any_sound rs text e in (r', inr there, o)
]

test_any_complete :
    (rs : List Regex) (text : List ℕ) (r : Regex)
    → Elem r rs
    → Occurs r text
    → test_any rs text ≡ true
unfolding test_any
test_any_complete [] text r there o = absurd there
test_any_complete (x ∷ rs) text r (inl e) o =
    rw ((test-iff-Occurs x text).1 (subst (λ y. Occurs y text) e o))
test_any_complete (x ∷ rs) text r (inr there) o =
    ground (arith, test_any_complete rs text r there o)

-- Some pattern of the list is found exactly where one of them occurs.
pub test_any-iff-Elem :
    (rs : List Regex) (text : List ℕ)
    → (test_any rs text ≡ true) ↔ ((r : Regex) × Elem r rs × Occurs r text)
test_any-iff-Elem rs text =
    (test_any_sound rs text, λ (r, there, o). test_any_complete rs text r there o)
