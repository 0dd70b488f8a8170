-- ===== src/Properties/Levenshtein.antt =====
-- `levenshtein` of src/properties/neighborhoods.ts, row by row of its table.
use mathlib.Core.List.{reverse, reverse-cons, append_assoc, append-nil}
use inmoagent.Prelude.{
  ℕ, suc, ◌+◌, Bool, List, [], ◌∷◌, ◌++◌, ◌≡◌, refl, sym, ◌∙◌, ap, ◌==◌, if◌then◌else◌, min, arith,
  length,
}

-- `dp[0]`, and the first column
unfoldable pub first_row : ℕ → List ℕ → List ℕ
first_row j [] = j ∷ []
first_row j (y ∷ b) = j ∷ first_row (j + 1) b

abbrev pub cell : Bool → ℕ → ℕ → ℕ → ℕ
cell same diagonal up left = if same then diagonal else 1 + min diagonal (min up left)

-- The inner loop: `dp[i][1..]` for the unit `x`, from `dp[i][j - 1]` and the row above from `j - 1` on.
unfoldable pub next_cells : ℕ → List ℕ → ℕ → List ℕ → List ℕ
next_cells x [] left above = []
next_cells x (y ∷ b) left [] = []
next_cells x (y ∷ b) left (diagonal ∷ []) = []
next_cells x (y ∷ b) left (diagonal ∷ up ∷ above) =
    let value = cell (x == y) diagonal up left in value ∷ next_cells x b value (up ∷ above)

-- The outer loop: the rows from `dp[i]` on.
unfoldable pub last_row : ℕ → List ℕ → List ℕ → List ℕ → List ℕ
unfolding next_cells
last_row i [] b row = row
last_row i (x ∷ a) b row = last_row (i + 1) a b ((i + 1) ∷ next_cells x b (i + 1) row)

abbrev pub last_or : ℕ → List ℕ → ℕ
last_or d [] = d
last_or d (x ∷ xs) = last_or x xs

-- `dp[a.length][b.length]`
unfoldable pub levenshtein : List ℕ → List ℕ → ℕ
unfolding first_row last_row
levenshtein a b = last_or 0 (last_row 0 a b (first_row 0 b))

-- The distance by recursion, of two texts written from their ends.
unfoldable pub distance : List ℕ → List ℕ → ℕ
distance [] b = length b
distance (x ∷ a) [] = suc (length a)
distance (x ∷ a) (y ∷ b) = cell (x == y) (distance a b) (distance a (y ∷ b)) (distance (x ∷ a) b)

-- The distances of `a` from `done` with more and more of `b`.
abbrev row_of : List ℕ → List ℕ → List ℕ → List ℕ
row_of a done [] = distance a done ∷ []
row_of a done (y ∷ b) = distance a done ∷ row_of a (y ∷ done) b

first_row_lem : (b done : List ℕ) → first_row (length done) b ≡ row_of [] done b
unfolding first_row distance
first_row_lem [] done = refl
first_row_lem (y ∷ b) done =
    ap (λ (l : List ℕ). length done ∷ l)
      (ap (λ (j : ℕ). first_row j b) (omega arith) ∙ first_row_lem b (y ∷ done))

next_cells_lem :
    (x : ℕ) (b a done : List ℕ)
    → distance (x ∷ a) done ∷ next_cells x b (distance (x ∷ a) done) (row_of a done b)
      ≡ row_of (x ∷ a) done b
unfolding next_cells distance
next_cells_lem x [] a done = refl
next_cells_lem x (y ∷ []) a done = refl
next_cells_lem x (y ∷ z ∷ b) a done =
    ap (λ (l : List ℕ). distance (x ∷ a) done ∷ l) (next_cells_lem x (z ∷ b) a (y ∷ done))

last_row_lem :
    (a b done : List ℕ) (i : ℕ)
    → i ≡ length done
    → last_row i a b (row_of done [] b) ≡ row_of (reverse a ++ done) [] b
unfolding last_row distance
last_row_lem [] b done i e = refl
last_row_lem (x ∷ a) b done i e =
    let first : i + 1 ≡ suc (length done) = omega (arith, e) in
    ap (λ (row : List ℕ). last_row (i + 1) a b row)
      (ap (λ (j : ℕ). j ∷ next_cells x b j (row_of done [] b)) first ∙ next_cells_lem x b done [])
    ∙ last_row_lem a b (x ∷ done) (i + 1) first
    ∙ ap (λ (r : List ℕ). row_of r [] b)
        (sym (append_assoc (reverse a) (x ∷ []) done)
          ∙ ap (λ (r : List ℕ). r ++ done) (sym (reverse-cons x a)))

last-row_of :
    (a b done : List ℕ) (d : ℕ) → last_or d (row_of a done b) ≡ distance a (reverse b ++ done)
last-row_of a [] done d = refl
last-row_of a (y ∷ b) done d =
    last-row_of a b (y ∷ done) (distance a done)
    ∙ ap (distance a) (
        sym (append_assoc (reverse b) (y ∷ []) done)
        ∙ ap (λ (r : List ℕ). r ++ done) (sym (reverse-cons y b)))

-- The table's last cell is the distance that is defined by recursion on the texts' last units: equal
-- ones cost nothing, and otherwise one more than the least of leaving out either or both.
pub levenshtein-distance : (a b : List ℕ) → levenshtein a b ≡ distance (reverse a) (reverse b)
unfolding levenshtein
levenshtein-distance a b =
    ap (λ (row : List ℕ). last_or 0 (last_row 0 a b row)) (first_row_lem b [])
    ∙ ap (last_or 0) (last_row_lem a b [] 0 refl)
    ∙ last-row_of (reverse a ++ []) b [] 0
    ∙ ap (λ (r : List ℕ). distance r (reverse b ++ [])) (append-nil (reverse a))
    ∙ ap (distance (reverse a)) (append-nil (reverse b))
