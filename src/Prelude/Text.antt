-- ===== src/Prelude/Text.antt =====
-- Texts by their code points, where the source looks inside them, and the order of `sort()`.
use Prim.Native.Char.{code}
use Prim.Native.Nat.{ℕ, Ordering}
use Prim.Native.String
use Prim.Native.String.{String}
use mathlib.Core.Bool.{Bool, true, false, ◌&&◌, ◌||◌}
use mathlib.Core.List.{List, [], ◌∷◌}
use tailii_host.Prelude.Tests.{◌==◌, nat_eq, string_eq}

abbrev pub codes : String → List ℕ
codes String.[] = []
codes (String.◌∷◌ c s) = code c ∷ codes s

-- `text.startsWith(prefix)`.
unfoldable pub is_prefix : List ℕ → List ℕ → Bool
is_prefix [] text = true
is_prefix (p ∷ prefix) [] = false
is_prefix (p ∷ prefix) (c ∷ text) = p == c && is_prefix prefix text

-- `text.includes(part)`.
unfoldable pub includes : List ℕ → List ℕ → Bool
unfolding is_prefix
includes part [] = is_prefix part []
includes part (c ∷ text) = is_prefix part (c ∷ text) || includes part text

-- `names.sort()`, by insertion. JavaScript orders by UTF-16 units, which is the order of the bytes
-- but for code points beyond U+FFFF.
unfoldable pub insert_sorted : String → List String → List String
insert_sorted name [] = name ∷ []
insert_sorted name (n ∷ names) =
    let further = n ∷ insert_sorted name names in
    elim (String.compare n name) [ Ordering.gt ↦ name ∷ n ∷ names | _ ↦ further ]

unfoldable pub sort : List String → List String
sort [] = []
sort (n ∷ names) = insert_sorted n (sort names)

-- `names.includes(name)`, `set.has(name)`.
abbrev pub has_name : String → List String → Bool
has_name name [] = false
has_name name (n ∷ names) = n == name || has_name name names
