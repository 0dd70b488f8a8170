-- ===== src/Prelude/Lookup.antt =====
-- Lists of texts as sets: `includes`, `new Set`, and a table of texts.
use Prim.Native.String.{String}
use mathlib.Core.Bool.{Bool, false, ◌||◌}
use mathlib.Core.Option.{Option, none, some}
use mathlib.Core.List.{List, [], ◌∷◌}
use text.Mathlib.Text.{◌==◌ as str_eq}
use inmoagent.Prelude.Tests.{if◌then◌else◌}

-- `xs.includes(s)`
abbrev pub includes : List String → String → Bool
includes [] s = false
includes (x ∷ xs) s = str_eq x s || includes xs s

-- `[...new Set(xs)]`: the first occurrence of each stays, behind those in `seen`.
abbrev pub dedupe_from : List String → List String → List String
dedupe_from seen [] = []
dedupe_from seen (x ∷ xs) =
    let fresh = x ∷ dedupe_from (x ∷ seen) xs in
    let again = dedupe_from seen xs in if includes seen x then again else fresh

abbrev pub dedupe : List String → List String
dedupe xs = dedupe_from [] xs

-- `table[s]`, `none` for `undefined`
module _ {ℓ} {V : Type ℓ} where
  abbrev pub lookup : String → List (String × V) → Option V
  lookup s [] = none
  lookup s ((k, v) ∷ table) = if str_eq k s then some v else lookup s table
