-- ===== src/Conversation/Engine/Keycaps.antt =====
-- `normalizeKeycapDigits` of src/conversation/filters.util.ts, over UTF-16 units.
use inmoagent.Prelude.{ℕ, Bool, ◌&&◌, List, [], ◌∷◌, leb, ◌==◌, if◌then◌else◌}

abbrev is_digit : ℕ → Bool
is_digit c = leb b'0' c && leb c b'9'

-- A digit, U+FE0F or nothing, and U+20E3 become the digit.
unfoldable pub strip_keycaps : List ℕ → List ℕ
strip_keycaps [] = []
strip_keycaps (a ∷ []) = a ∷ []
strip_keycaps (a ∷ b ∷ []) = if is_digit a && b == 0x20e3 then a ∷ [] else a ∷ b ∷ []
strip_keycaps (a ∷ b ∷ c ∷ s) =
    let long = strip_keycaps s in
    let short = strip_keycaps (c ∷ s) in
    let next = strip_keycaps (b ∷ c ∷ s) in
    if is_digit a && b == 0xfe0f && c == 0x20e3
    then a ∷ long
    else if is_digit a && b == 0x20e3
    then a ∷ short
    else a ∷ next

-- The keycap 10 (U+1F51F, two units) becomes "10".
unfoldable pub replace_keycap_ten : List ℕ → List ℕ
replace_keycap_ten [] = []
replace_keycap_ten (a ∷ []) = a ∷ []
replace_keycap_ten (a ∷ b ∷ s) =
    let ten = replace_keycap_ten s in
    let next = replace_keycap_ten (b ∷ s) in
    if a == 0xd83d && b == 0xdd1f then b'1' ∷ b'0' ∷ ten else a ∷ next

unfoldable pub normalize_keycap_digits : List ℕ → List ℕ
unfolding strip_keycaps replace_keycap_ten
normalize_keycap_digits text = replace_keycap_ten (strip_keycaps text)
