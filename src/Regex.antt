-- ===== src/Regex.antt =====
-- Regular expressions as JavaScript runs them over UTF-16 units: the operators that the patterns of
-- src/conversation use, and the search for a match. An alternative written first is tried first, and
-- a repetition takes as much as it can, so the first end in the list is the end of the match.
pub mod Replace
pub mod Syntax
pub mod Spec
pub mod Exact
use Prim.Native.Char.{code}
use Prim.Native.String
use inmoagent.Prelude.{
  ℕ, zero, suc, ◌+◌, String, Bool, true, false, not, ◌&&◌, ◌||◌, Option, none, some, List, [], ◌∷◌,
  ◌++◌, ltb, leb, ◌==◌, if◌then◌else◌, length, is_nonempty,
}

pub data Regex : Type 0 where
  empty word_boundary start : Regex
  unit : (ℕ → Bool) → Regex
  both either : Regex → Regex → Regex
  star : Regex → Regex

-- A place in a text: the unit before it, and the units behind it.
pub record Place : Type 0 where
  pub before : Option ℕ
  pub rest : List ℕ

abbrev pub codes : String → List ℕ
codes String.[] = []
codes (String.◌∷◌ c s) = code c ∷ codes s

abbrev pub within : ℕ → ℕ → ℕ → Bool
within lo hi c = leb lo c && leb c hi

abbrev pub is_digit : ℕ → Bool
is_digit c = within b'0' b'9' c

-- `\w` without the flag `u`: letters with an accent are no word units.
abbrev pub is_word : ℕ → Bool
is_word c = within b'a' b'z' c || within b'A' b'Z' c || is_digit c || c == b'_'

-- A unit as the flag `i` compares it: capitals of ASCII and of Latin-1 count as small letters.
abbrev pub fold : ℕ → ℕ
fold c = if within b'A' b'Z' c || (within 192 222 c && not (c == 215)) then c + 32 else c

abbrev pub word_before : Option ℕ → Bool
word_before none = false
word_before (some c) = is_word c

abbrev pub word_behind : List ℕ → Bool
word_behind [] = false
word_behind (c ∷ s) = is_word c

-- `\b`
abbrev pub at_boundary : Place → Bool
at_boundary p = if word_before p.before then not (word_behind p.rest) else word_behind p.rest

abbrev pub is_start : Option ℕ → Bool
is_start none = true
is_start (some c) = false

abbrev pub here_if : Bool → Place → List Place
here_if b p = if b then p ∷ [] else []

unfoldable pub unit_ends : (ℕ → Bool) → List ℕ → List Place
unit_ends test [] = []
unit_ends test (c ∷ s) = here_if (test c) (record { before = some c; rest = s })

unfoldable pub flat_map : (Place → List Place) → List Place → List Place
flat_map f [] = []
flat_map f (p ∷ ps) = f p ++ flat_map f ps

-- The places of a list that lie behind another place.
unfoldable pub behind : Place → List Place → List Place
behind p [] = []
behind p (q ∷ qs) =
    let others = behind p qs in if ltb (length q.rest) (length p.rest) then q ∷ others else others

-- Greedy repetition: a round that takes nothing is not tried. Each round takes a unit, so as much
-- fuel as there are units is enough.
unfoldable pub star_ends : ℕ → (Place → List Place) → Place → List Place
star_ends zero body p = p ∷ []
star_ends (suc fuel) body p = flat_map (star_ends fuel body) (behind p (body p)) ++ p ∷ []

-- Where a match that begins at `p` can end, in the order in which they are tried.
unfoldable pub ends : Regex → Place → List Place
ends empty p = p ∷ []
ends word_boundary p = here_if (at_boundary p) p
ends start p = here_if (is_start p.before) p
ends (unit test) p = unit_ends test p.rest
ends (both a b) p = flat_map (ends b) (ends a p)
ends (either a b) p = ends a p ++ ends b p
ends (star a) p = star_ends (length p.rest) (ends a) p

unfoldable pub test_from : Regex → Option ℕ → List ℕ → Bool
test_from r before [] = is_nonempty (ends r (record { before = before; rest = [] }))
test_from r before (c ∷ s) =
    is_nonempty (ends r (record { before = before; rest = c ∷ s })) || test_from r (some c) s

-- `r.test(text)`
unfoldable pub test : Regex → List ℕ → Bool
test r text = test_from r none text

-- `rs.some((r) => r.test(text))`
unfoldable pub test_any : List Regex → List ℕ → Bool
test_any [] text = false
test_any (r ∷ rs) text = test r text || test_any rs text
