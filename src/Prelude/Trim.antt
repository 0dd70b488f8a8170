-- ===== src/Prelude/Trim.antt =====
-- `String.prototype.trim`, over UTF-16 units.
use Prim.Native.Nat.{ℕ, ◌≤◌}
use mathlib.Core.Bool.{Bool, ◌&&◌, ◌||◌}
use mathlib.Core.List.{List, [], ◌∷◌}
use native.Mathlib.Omega.{arith}
use inmoagent.Prelude.Tests.{leb, ◌==◌, if◌then◌else◌}
use inmoagent.Prelude.Lists.{is_empty, length}

-- white space and line ends, as `trim` has them
unfoldable pub is_space : ℕ → Bool
is_space c =
    (leb 9 c && leb c 13)
    || c == 32
    || c == 160
    || c == 0x1680
    || (leb 0x2000 c && leb c 0x200a)
    || c == 0x2028
    || c == 0x2029
    || c == 0x202f
    || c == 0x205f
    || c == 0x3000
    || c == 0xfeff

unfoldable pub trim_start : List ℕ → List ℕ
trim_start [] = []
trim_start (c ∷ s) = if is_space c then trim_start s else c ∷ s

unfoldable pub trim_end : List ℕ → List ℕ
trim_end [] = []
trim_end (c ∷ s) = let rest = trim_end s in if is_empty rest && is_space c then [] else c ∷ rest

unfoldable pub trim : List ℕ → List ℕ
unfolding trim_start trim_end
trim s = trim_start (trim_end s)

length-trim_start : (s : List ℕ) → length (trim_start s) ≤ length s
unfolding trim_start
length-trim_start [] = omega arith
length-trim_start (c ∷ s) = ground (arith, length-trim_start s)

length-trim_end : (s : List ℕ) → length (trim_end s) ≤ length s
unfolding trim_end
length-trim_end [] = omega arith
length-trim_end (c ∷ s) = ground (arith, length-trim_end s)

pub length-trim : (s : List ℕ) → length (trim s) ≤ length s
unfolding trim
length-trim s = omega (arith, length-trim_start (trim_end s), length-trim_end s)
