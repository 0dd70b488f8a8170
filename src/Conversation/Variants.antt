-- ===== src/Conversation/Variants.antt =====
-- src/conversation/copy-variants.util.ts: which wording a lead gets in a turn. The hash, `Number` and
-- the printing of a number are parameters.
use inmoagent.Prelude.{
  ℕ, suc, ◌+◌, ◌%◌, ◌<◌, false, Option, none, some, List, [], ◌∷◌, ◌++◌, ◌==◌, if◌then◌else◌, ◌≡◌,
  ◌≢◌, refl, sym, ap, All, length, get_elem?, arith, subst,
}

pub record SeedKit : Type 0 where
  pub hash_uint32 : List ℕ → ℕ
  pub number : List ℕ → Option ℕ
  pub print : ℕ → List ℕ

-- What they do to a turn's number: it is printed without a colon, and read back.
pub record ReadsBack (kit : SeedKit) : Type 0 where
  pub no_colon : (n : ℕ) → All (λ (c : ℕ). (c == b':') ≡ false) (kit.print n)
  pub reads : (n : ℕ) → kit.number (kit.print n) ≡ some n

-- What stands before and behind the last colon.
unfoldable pub split_last : List ℕ → Option (List ℕ × List ℕ)
split_last [] = none
split_last (c ∷ s) = elim (split_last s) [
  | some (before, behind) ↦ some (c ∷ before, behind)
  | none ↦ if c == b':' then some ([], s) else none
]

module _ (kit : SeedKit) where
  -- `leadOffset + turnOffset`; a turn that is no number counts as 0
  unfoldable pub offset_of : List ℕ → ℕ
  unfolding split_last
  offset_of seed = elim (split_last seed) [
    | none ↦ kit.hash_uint32 seed + 0
    | some (lead_part, turn_part) ↦ elim (kit.number turn_part) [
      | none ↦ kit.hash_uint32 lead_part + 0
      | some turn_count ↦ kit.hash_uint32 lead_part + turn_count
    ]
  ]

  -- none where the source throws
  unfoldable pub pick_variant : {A : Type 0} → List A → List ℕ → Option A
  unfolding offset_of
  pick_variant [] seed = none
  pick_variant (v ∷ []) seed = some v
  pick_variant (v ∷ v' ∷ variants) seed =
      get_elem? (v ∷ v' ∷ variants) (offset_of seed % length (v ∷ v' ∷ variants))

  -- `${lead.id}:${lead.turnCount}`
  unfoldable pub lead_seed_text : List ℕ → ℕ → List ℕ
  lead_seed_text lead_id turn_count = lead_id ++ b':' ∷ kit.print turn_count

split_last-none : (s : List ℕ) → All (λ (c : ℕ). (c == b':') ≡ false) s → split_last s ≡ none
unfolding split_last
split_last-none [] h = refl
split_last-none (c ∷ s) h = rw (split_last-none s h.1, h.0)

split_last-append :
    (lead_id s : List ℕ)
    → All (λ (c : ℕ). (c == b':') ≡ false) s
    → split_last (lead_id ++ b':' ∷ s) ≡ some (lead_id, s)
unfolding split_last
split_last-append [] s h = rw (split_last-none s h)
split_last-append (c ∷ lead_id) s h = rw (split_last-append lead_id s h)

module _ (kit : SeedKit) (back : ReadsBack kit) where
  offset_of-lead_seed_text :
      (lead_id : List ℕ) (turn_count : ℕ)
      → offset_of kit (lead_seed_text kit lead_id turn_count) ≡ kit.hash_uint32 lead_id + turn_count
  unfolding offset_of lead_seed_text
  offset_of-lead_seed_text lead_id turn_count = ground (
    arith,
    split_last-append lead_id (kit.print turn_count) (back.no_colon turn_count),
    back.reads turn_count,
  )

next_differs : (a n : ℕ) → (a % suc (suc n)) ≢ ((a + 1) % suc (suc n))
next_differs a n h = grind arith

mod_bound : (a n : ℕ) → a % suc (suc n) < suc (suc n)
mod_bound a n = omega arith

module _ (kit : SeedKit) (back : ReadsBack kit) {A : Type 0} (v v' : A) (variants : List A)
    (lead_id : List ℕ) where
  position : ℕ → ℕ
  position turn_count = (kit.hash_uint32 lead_id + turn_count) % suc (suc (length variants))

  pick_variant-position :
      (turn_count : ℕ)
      → pick_variant kit (v ∷ v' ∷ variants) (lead_seed_text kit lead_id turn_count)
        ≡ get_elem? (v ∷ v' ∷ variants) (position turn_count)
  unfolding pick_variant position
  pick_variant-position turn_count =
      ap (λ (o : ℕ). get_elem? (v ∷ v' ∷ variants) (o % suc (suc (length variants))))
        (offset_of-lead_seed_text kit back lead_id turn_count)

  -- With two wordings or more, a lead gets in two turns that follow one another the wordings at two
  -- different positions of the list.
  pub pick_variant-differs :
      (turn_count : ℕ)
      → (i : ℕ) × (j : ℕ) × (pick_variant kit
            (v ∷ v' ∷ variants)
            (lead_seed_text kit lead_id turn_count)
          ≡ get_elem? (v ∷ v' ∷ variants) i)
        × (pick_variant kit (v ∷ v' ∷ variants) (lead_seed_text kit lead_id (turn_count + 1))
            ≡ get_elem? (v ∷ v' ∷ variants) j)
        × (i ≢ j)
        × (i < length (v ∷ v' ∷ variants))
        × (j < length (v ∷ v' ∷ variants))
  unfolding position
  pick_variant-differs turn_count =
      let a : ℕ = kit.hash_uint32 lead_id + turn_count in
      let next : kit.hash_uint32 lead_id + (turn_count + 1) ≡ a + 1 = omega arith in
      (
        position turn_count,
        position (turn_count + 1),
        pick_variant-position turn_count,
        pick_variant-position (turn_count + 1),
        subst (λ (b : ℕ). (a % suc (suc (length variants))) ≢ (b % suc (suc (length variants))))
            (sym next) (next_differs a (length variants)),
        mod_bound a (length variants),
        mod_bound (kit.hash_uint32 lead_id + (turn_count + 1)) (length variants),
      )
