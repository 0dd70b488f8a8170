-- ===== src/Admin/Csv.antt =====
-- src/admin/properties/csv-parser.util.ts, over UTF-16 units.
pub mod RoundTrip
use inmoagent.Prelude.{
  ℕ, Bool, true, false, not, ◌&&◌, ◌||◌, Option, none, some, List, [], ◌∷◌, ◌++◌, if◌then◌else◌,
  ◌==◌, filter, is_empty, is_nonempty, trim,
}

-- The loop's variables.
pub record Scan : Type 0 where
  pub rows : List (List (List ℕ))
  pub row : List (List ℕ)
  pub field : List ℕ
  pub in_quotes : Bool

abbrev pub starts_with : ℕ → List ℕ → Bool
starts_with c [] = false
starts_with c (x ∷ s) = x == c

-- `replace(/\r\n/g, '\n')`
unfoldable pub replace_crlf : List ℕ → List ℕ
replace_crlf [] = []
replace_crlf (c ∷ s) =
    let rest = replace_crlf s in if c == 13 && starts_with 10 s then rest else c ∷ rest

-- `replace(/\r/g, '\n')`
unfoldable pub replace_cr : List ℕ → List ℕ
replace_cr [] = []
replace_cr (c ∷ s) = (if c == 13 then 10 else c) ∷ replace_cr s

-- One round of the loop at `c`, with what stands behind it: the variables, and whether the round
-- takes the next unit too (`i++`).
unfoldable pub scan_unit : Scan → ℕ → List ℕ → Scan × Bool
scan_unit st c s =
    if st.in_quotes
    then (if c == b'"'
        then (if starts_with b'"' s
            then (record st { field = st.field ++ b'"' ∷ [] }, true)
            else (record st { in_quotes = false }, false))
        else (record st { field = st.field ++ c ∷ [] }, false))
    else if c == b'"'
    then (record st { in_quotes = true }, false)
    else if c == b','
    then (record st { row = st.row ++ st.field ∷ []; field = [] }, false)
    else if c == 10
    then (
      record st { rows = st.rows ++ (st.row ++ st.field ∷ []) ∷ []; row = []; field = [] },
      false,
    )
    else (record st { field = st.field ++ c ∷ [] }, false)

unfoldable pub scan : Bool → Scan → List ℕ → Scan
unfolding scan_unit
scan skip st [] = st
scan skip st (c ∷ s) =
    let (st', skip') = if skip then (st, false) else scan_unit st c s in scan skip' st' s

-- The last row, where the text does not end with a line end.
unfoldable pub close_row : Scan → List (List (List ℕ))
close_row st =
    if is_nonempty st.field || is_nonempty st.row
    then st.rows ++ (st.row ++ st.field ∷ []) ∷ []
    else st.rows

unfoldable pub is_blank_row : List (List ℕ) → Bool
is_blank_row [] = false
is_blank_row (field ∷ []) = is_empty (trim field)
is_blank_row (field ∷ _ ∷ _) = false

abbrev pub new_scan : Scan
new_scan = record { rows = []; row = []; field = []; in_quotes = false }

unfoldable pub parse_csv : List ℕ → List (List (List ℕ))
unfolding replace_crlf replace_cr scan close_row is_blank_row
parse_csv text =
    filter (λ r. not (is_blank_row r))
      (close_row (scan false new_scan (replace_cr (replace_crlf text))))
