-- ===== src/Admin/Csv/RoundTrip.antt =====
-- Tables as RFC 4180 writes them, and what the parser makes of them.
use mathlib.Core.List.{append-nil, append_assoc}
use inmoagent.Prelude.{
  ℕ, true, false, not, ◌≡◌, refl, ◌∙◌, ap, List, [], ◌∷◌, ◌++◌, if◌then◌else◌, ◌==◌, filter, arith,
  All, Bool-cases, inl, inr, is_nonempty,
}
use inmoagent.Admin.Csv.{
  Scan, starts_with, replace_crlf, replace_cr, scan, close_row, is_blank_row, new_scan, parse_csv,
}

-- each quotation mark twice
abbrev pub escaped : List ℕ → List ℕ
escaped [] = []
escaped (c ∷ field) = if c == b'"' then b'"' ∷ b'"' ∷ escaped field else c ∷ escaped field

abbrev pub print_fields : List ℕ → List (List ℕ) → List ℕ → List ℕ
print_fields field [] rest = b'"' ∷ escaped field ++ b'"' ∷ 10 ∷ rest
print_fields field (next ∷ fields) rest =
    b'"' ∷ escaped field ++ b'"' ∷ b',' ∷ print_fields next fields rest

-- Every field in quotation marks, a line end behind each row.
abbrev pub print_csv : List (List (List ℕ)) → List ℕ
print_csv [] = []
print_csv ([] ∷ rows) = print_csv rows
print_csv ((field ∷ fields) ∷ rows) = print_fields field fields (print_csv rows)

module _ (rows : List (List (List ℕ))) (row : List (List ℕ)) where
  quoted : List ℕ → Scan
  quoted acc = record { rows = rows; row = row; field = acc; in_quotes = true }

  plain : List ℕ → Scan
  plain acc = record { rows = rows; row = row; field = acc; in_quotes = false }

  scan-quoted_unit :
      (c : ℕ) (s acc : List ℕ)
      → (c == b'"') ≡ false
      → scan false (quoted acc) (c ∷ s) ≡ scan false (quoted (acc ++ c ∷ [])) s
  unfolding scan quoted
  scan-quoted_unit c s acc e = rw e

  scan-escaped :
      (field rest acc : List ℕ)
      → starts_with b'"' rest ≡ false
      → scan false (quoted acc) (escaped field ++ b'"' ∷ rest)
        ≡ scan false (plain (acc ++ field)) rest
  unfolding scan quoted plain
  scan-escaped [] rest acc h = rw (h, append-nil acc)
  scan-escaped (c ∷ field) rest acc h = elim (Bool-cases (c == b'"')) [
    | inl e ↦
        let same : c ≡ b'"' = ground (arith, e) in
        rw same (
          scan-escaped field rest (acc ++ b'"' ∷ []) h
          ∙ ap (λ (f : List ℕ). scan false (plain f) rest) (append_assoc acc (b'"' ∷ []) field))
    | inr e ↦ rw e (
        scan-quoted_unit c (escaped field ++ b'"' ∷ rest) acc e
        ∙ scan-escaped field rest (acc ++ c ∷ []) h
        ∙ ap (λ (f : List ℕ). scan false (plain f) rest) (append_assoc acc (c ∷ []) field))
  ]

scan-print_fields :
    (rows : List (List (List ℕ))) (row : List (List ℕ)) (field : List ℕ) (fields : List (List ℕ))
    (rest : List ℕ)
    → scan false (plain rows row []) (print_fields field fields rest)
      ≡ scan false (plain (rows ++ (row ++ field ∷ fields) ∷ []) [] []) rest
unfolding scan quoted plain
scan-print_fields rows row field [] rest = scan-escaped rows row field (10 ∷ rest) [] refl
scan-print_fields rows row field (next ∷ fields) rest =
    scan-escaped rows row field (b',' ∷ print_fields next fields rest) [] refl
    ∙ scan-print_fields rows (row ++ field ∷ []) next fields rest
    ∙ ap (λ (r : List (List ℕ)). scan false (plain (rows ++ r ∷ []) [] []) rest)
        (append_assoc row (field ∷ []) (next ∷ fields))

-- Rows that have a field.
abbrev pub HasField : List (List ℕ) → Type 0
HasField row = is_nonempty row ≡ true

scan-print_csv :
    (table rows : List (List (List ℕ)))
    → All HasField table
    → scan false (plain rows [] []) (print_csv table) ≡ plain (rows ++ table) [] []
unfolding scan plain
scan-print_csv [] rows h = rw (append-nil rows)
scan-print_csv ([] ∷ table) rows h = absurd (cc (h.0))
scan-print_csv ((field ∷ fields) ∷ table) rows h =
    scan-print_fields rows [] field fields (print_csv table)
    ∙ scan-print_csv table (rows ++ (field ∷ fields) ∷ []) h.1
    ∙ ap (λ (r : List (List (List ℕ))). plain r [] [])
        (append_assoc rows ((field ∷ fields) ∷ []) table)

-- A text without the unit 13.
abbrev pub HasNoReturn : List ℕ → Type 0
HasNoReturn s = All (λ (c : ℕ). (c == 13) ≡ false) s

replace_crlf-HasNoReturn : (s : List ℕ) → HasNoReturn s → replace_crlf s ≡ s
unfolding replace_crlf
replace_crlf-HasNoReturn [] h = refl
replace_crlf-HasNoReturn (c ∷ s) h = rw (h.0, replace_crlf-HasNoReturn s h.1)

replace_cr-HasNoReturn : (s : List ℕ) → HasNoReturn s → replace_cr s ≡ s
unfolding replace_cr
replace_cr-HasNoReturn [] h = refl
replace_cr-HasNoReturn (c ∷ s) h = rw (h.0, replace_cr-HasNoReturn s h.1)

escaped-HasNoReturn :
    (s rest : List ℕ) → HasNoReturn s → HasNoReturn rest → HasNoReturn (escaped s ++ rest)
escaped-HasNoReturn [] rest h hr = hr
escaped-HasNoReturn (c ∷ s) rest h hr = elim (Bool-cases (c == b'"')) [
  | inl e ↦ rw e (refl, (refl, escaped-HasNoReturn s rest h.1 hr))
  | inr e ↦ rw e (h.0, escaped-HasNoReturn s rest h.1 hr)
]

print_fields-HasNoReturn :
    (field : List ℕ) (fields : List (List ℕ)) (rest : List ℕ)
    → All HasNoReturn (field ∷ fields)
    → HasNoReturn rest
    → HasNoReturn (print_fields field fields rest)
print_fields-HasNoReturn field [] rest h hr =
    (refl, escaped-HasNoReturn field (b'"' ∷ 10 ∷ rest) h.0 (refl, (refl, hr)))
print_fields-HasNoReturn field (next ∷ fields) rest h hr = (
  refl,
  escaped-HasNoReturn field (b'"' ∷ b',' ∷ print_fields next fields rest) h.0
      (refl, (refl, print_fields-HasNoReturn next fields rest h.1 hr)),
)

print_csv-HasNoReturn :
    (table : List (List (List ℕ))) → All (All HasNoReturn) table → HasNoReturn (print_csv table)
print_csv-HasNoReturn [] h = tt
print_csv-HasNoReturn ([] ∷ table) h = print_csv-HasNoReturn table h.1
print_csv-HasNoReturn ((field ∷ fields) ∷ table) h =
    print_fields-HasNoReturn field fields (print_csv table) h.0 (print_csv-HasNoReturn table h.1)

-- A table that is written with every field in quotation marks, as RFC 4180 has them, is read back as it
-- is, whatever commas, quotation marks and line feeds its fields have, except for the rows of one
-- blank field, which are dropped: as long as each row has a field and no field has a carriage return.
pub parse_csv-print_csv :
    (table : List (List (List ℕ)))
    → All HasField table
    → All (All HasNoReturn) table
    → parse_csv (print_csv table) ≡ filter (λ r. not (is_blank_row r)) table
unfolding parse_csv close_row plain
parse_csv-print_csv table h clean =
    let s = print_csv table in
    let none_in = print_csv-HasNoReturn table clean in
    let same : replace_cr (replace_crlf s) ≡ s =
      ap replace_cr (replace_crlf-HasNoReturn s none_in) ∙ replace_cr-HasNoReturn s none_in in
    ap
      (λ (t : List ℕ).
        filter (λ (r : List (List ℕ)). not (is_blank_row r)) (close_row (scan false new_scan t)))
      same
    ∙ ap (λ (st : Scan). filter (λ (r : List (List ℕ)). not (is_blank_row r)) (close_row st))
        (scan-print_csv table [] h)
