-- ===== src/Admin/Import/Accounts.antt =====
-- What an import tells of its rows.
use mathlib.Core.List.{append-nil, append_assoc}
use inmoagent.Prelude.{
  ℕ, suc, ◌+◌, ◌≤◌, List, [], ◌∷◌, ◌++◌, ◌≡◌, refl, sym, ◌∙◌, ap, subst, ◌⊎◌, inl, inr, arith,
  length,
}
use inmoagent.Admin.Import.{
  Units, Reading, RowError, not_upserted, PropertyInput, to_record, parse_row, Progress, note_error,
  import_row, import_rows,
}

Sum-cases : {A B : Type 0} (x : A ⊎ B) → ((a : A) × (x ≡ inl a)) ⊎ ((b : B) × (x ≡ inr b))
Sum-cases (inl a) = inl (a, refl)
Sum-cases (inr b) = inr (b, refl)

module _ {Num DB : Type 0} (n : Reading Num) (upsert : PropertyInput Num → DB → Units ⊎ DB) where
  -- The numbers of the rows with an error, each larger than the one before it.
  abbrev pub Numbered : ℕ → ℕ → List (ℕ × RowError) → Type 0
  Numbered from to [] = from ≤ to
  Numbered from to (e ∷ errors) = (from ≤ e.0) × Numbered (e.0 + 1) to errors

  Numbered-below :
      (lo from to : ℕ) (errors : List (ℕ × RowError))
      → lo ≤ from
      → Numbered from to errors
      → Numbered lo to errors
  Numbered-below lo from to [] le h = omega arith
  Numbered-below lo from to (e ∷ errors) le h = (omega (arith, h.0), h.1)

  module _ (header : List Units) (number : ℕ) (row : List Units) (p : Progress n upsert) where
    row_bad :
        (e : RowError)
        → parse_row n (to_record header row) ≡ inl e
        → import_row n upsert header number row p ≡ note_error n upsert number e p
    unfolding import_row
    row_bad e q = ground (arith, q)

    row_rejected :
        (input : PropertyInput Num) (message : Units)
        → parse_row n (to_record header row) ≡ inr input
        → upsert input p.db ≡ inl message
        → import_row n upsert header number row p
          ≡ note_error n upsert number (not_upserted message) p
    unfolding import_row
    row_rejected input message q r = ground (arith, q, r)

    row_stored :
        (input : PropertyInput Num) (db : DB)
        → parse_row n (to_record header row) ≡ inr input
        → upsert input p.db ≡ inr db
        → import_row n upsert header number row p ≡ record p { db = db; imported = p.imported + 1 }
    unfolding import_row
    row_stored input db q r = ground (arith, q, r)

  -- One more row is either imported or has an error with its number.
  import_row_cases :
      (header : List Units) (number : ℕ) (row : List Units) (p : Progress n upsert)
      → (((import_row n upsert header number row p).imported ≡ p.imported + 1)
          × ((import_row n upsert header number row p).errors ≡ p.errors))
        ⊎ (((import_row n upsert header number row p).imported ≡ p.imported)
            × ((e : RowError) × ((import_row n upsert header number row p).errors
                  ≡ p.errors ++ (number, e) ∷ [])))
  import_row_cases header number row p = elim (Sum-cases (parse_row n (to_record header row))) [
    | inl (e, q) ↦ rw (row_bad header number row p e q) (inr (refl, (e, refl)))
    | inr (input, q) ↦ elim (Sum-cases (upsert input p.db)) [
      | inl (message, r) ↦
          rw (row_rejected header number row p input message q r)
            (inr (refl, (not_upserted message, refl)))
      | inr (db, r) ↦ rw (row_stored header number row p input db q r) (inl (refl, refl))
    ]
  ]

  -- Every row behind the titles is either counted as imported or has one error, with the number of
  -- its row in the file; the errors come in the order of the rows.
  pub import_rows-accounts :
      (header : List Units) (number : ℕ) (rows : List (List Units)) (p : Progress n upsert)
      → let q = import_rows n upsert header number rows p in
        (errors : List (ℕ × RowError)) × (q.errors ≡ p.errors ++ errors)
        × (q.imported + length errors ≡ p.imported + length rows)
        × Numbered number (number + length rows) errors
  unfolding import_rows
  import_rows-accounts header number [] p =
      ([], sym (append-nil p.errors), omega arith, omega arith)
  import_rows-accounts header number (row ∷ rows) p =
      let p' = import_row n upsert header number row p in
      let (errors, appended, count, order) = import_rows-accounts header (number + 1) rows p' in
      let order' : Numbered (number + 1) (number + suc (length rows)) errors =
        subst (λ (t : ℕ). Numbered (number + 1) t errors) (omega arith) order in
      elim (import_row_cases header number row p) [
        | inl (counted, same) ↦ (
          errors,
          appended ∙ ap (λ (l : List (ℕ × RowError)). l ++ errors) same,
          omega arith,
          Numbered-below number (number + 1) (number + suc (length rows)) errors (omega arith)
              order',
        )
        | inr (same, (e, noted)) ↦ (
          (number, e) ∷ errors,
          appended
              ∙ ap (λ (l : List (ℕ × RowError)). l ++ errors) noted
              ∙ append_assoc p.errors ((number, e) ∷ []) errors,
          omega arith,
          (omega arith, order'),
        )
      ]
