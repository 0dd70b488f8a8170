-- ===== src/Regex/Replace.antt =====
-- `text.replace(r, new)`, for an expression without and with the flag `g`.
use inmoagent.Prelude.{ℕ, zero, suc, ◌-◌, Option, none, some, List, [], ◌∷◌, ◌++◌, length}
use inmoagent.Regex.{Regex, ends}

-- The first match is replaced.
unfoldable pub replace_from : Regex → List ℕ → Option ℕ → List ℕ → List ℕ
replace_from r new before [] = elim (ends r (record { before = before; rest = [] })) [
  | [] ↦ []
  | q ∷ _ ↦ new ++ q.rest
]
replace_from r new before (c ∷ s) = elim (ends r (record { before = before; rest = c ∷ s })) [
  | [] ↦ c ∷ replace_from r new (some c) s
  | q ∷ _ ↦ new ++ q.rest
]

unfoldable pub replace : Regex → List ℕ → List ℕ → List ℕ
unfolding replace_from
replace r new text = replace_from r new none text

-- How many units of the text `s` a match takes that leaves `rest`.
abbrev pub taken : List ℕ → List ℕ → ℕ
taken s rest = length s - length rest

-- Every match is replaced, from left to right. `skip` counts the units that are left of a match;
-- an empty match keeps the next unit.
unfoldable pub replace_all_from : Regex → List ℕ → Option ℕ → ℕ → List ℕ → List ℕ
replace_all_from r new before (suc skip) [] = []
replace_all_from r new before (suc skip) (c ∷ s) = replace_all_from r new (some c) skip s
replace_all_from r new before zero [] = elim (ends r (record { before = before; rest = [] })) [
  | [] ↦ []
  | q ∷ _ ↦ new
]
replace_all_from r new before zero (c ∷ s) =
    elim (ends r (record { before = before; rest = c ∷ s })) [
      | [] ↦ c ∷ replace_all_from r new (some c) zero s
      | q ∷ _ ↦ elim (taken (c ∷ s) q.rest) [
        | zero ↦ new ++ c ∷ replace_all_from r new (some c) zero s
        | suc n ↦ new ++ replace_all_from r new (some c) n s
      ]
    ]

unfoldable pub replace_all : Regex → List ℕ → List ℕ → List ℕ
unfolding replace_all_from
replace_all r new text = replace_all_from r new none zero text
