-- ===== src/Regex/Syntax.antt =====
-- How the patterns of src/conversation are written with the operators of Regex.
use Prim.Native.String.{String}
use inmoagent.Prelude.{ℕ, zero, suc, Bool, false, ◌||◌, List, [], ◌∷◌, ◌==◌, is_space}
use inmoagent.Regex.{Regex, empty, unit, both, either, star, codes, within, is_digit, fold}

-- A literal, with the flag `i`.
unfoldable pub folded : List ℕ → Regex
folded [] = empty
folded (c ∷ s) = both (unit (λ x. fold x == fold c)) (folded s)

abbrev pub lit : String → Regex
lit s = folded (codes s)

-- A literal, without the flag `i`.
unfoldable pub exactly : List ℕ → Regex
exactly [] = empty
exactly (c ∷ s) = both (unit (λ x. x == c)) (exactly s)

abbrev pub exact : String → Regex
exact s = exactly (codes s)

unfoldable pub is_one_of : List ℕ → ℕ → Bool
is_one_of [] x = false
is_one_of (c ∷ s) x = fold x == fold c || is_one_of s x

-- `[...]`, with the flag `i`
abbrev pub one_of : String → Regex
one_of s = unit (is_one_of (codes s))

unfoldable pub seq : List Regex → Regex
seq [] = empty
seq (r ∷ rs) = both r (seq rs)

unfoldable pub alt : List Regex → Regex
alt [] = unit (λ x. false)
alt (r ∷ rs) = either r (alt rs)

abbrev pub opt : Regex → Regex
opt r = either r empty

abbrev pub plus : Regex → Regex
plus r = both r (star r)

-- `r{n,}`
unfoldable pub at_least : ℕ → Regex → Regex
at_least zero r = star r
at_least (suc n) r = both r (at_least n r)

-- `\s`
abbrev pub space : Regex
space = unit is_space

-- `\d`
abbrev pub digit : Regex
digit = unit is_digit

-- `[1-9]`
abbrev pub one_to_nine : Regex
one_to_nine = unit (within b'1' b'9')

abbrev pub is_letter_or_digit : ℕ → Bool
is_letter_or_digit c = within b'a' b'z' c || within b'A' b'Z' c || is_digit c

-- `[A-Za-z0-9]`
abbrev pub letter_or_digit : Regex
letter_or_digit = unit is_letter_or_digit

abbrev pub is_key_unit : ℕ → Bool
is_key_unit c = is_letter_or_digit c || c == b'_' || c == b'-'

-- `[a-zA-Z0-9_-]`
abbrev pub key_unit : Regex
key_unit = unit is_key_unit

-- `[a-zA-Z0-9._-]`
abbrev pub token_unit : Regex
token_unit = unit (λ c. is_key_unit c || c == b'.')
