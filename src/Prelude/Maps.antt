-- ===== src/Prelude/Maps.antt =====
-- A JavaScript `Map`: an association list in insertion order. `set` on a known key keeps its place.
use mathlib.Core.Path.{◌≡◌, refl}
use mathlib.Core.Bool.{Bool, true, false}
use mathlib.Core.List.{List, [], ◌∷◌}
use mathlib.Core.Option.{Option, none, some}
use native.Mathlib.Omega.{arith}
use tailii_host.Prelude.Tests.{StrictEq, ◌==◌, if◌then◌else◌}
use tailii_host.Prelude.Lists.{all}

module _ {ℓ κ} {K : Type ℓ} {V : Type κ} ⦃e : StrictEq K⦄ where
  -- `m.get(k)`.
  unfoldable pub get : K → List (K × V) → Option V
  get k [] = none
  get k ((j, v) ∷ m) = let rest = get k m in if j == k then some v else rest

  -- `m.set(k, v)`.
  unfoldable pub set : K → V → List (K × V) → List (K × V)
  set k v [] = (k, v) ∷ []
  set k v ((j, w) ∷ m) = let rest = set k v m in if j == k then (j, v) ∷ m else (j, w) ∷ rest

  -- `m.delete(k)`.
  unfoldable pub delete : K → List (K × V) → List (K × V)
  delete k [] = []
  delete k ((j, w) ∷ m) = let rest = delete k m in if j == k then rest else (j, w) ∷ rest

  -- `[...m.keys()]`.
  unfoldable pub keys : List (K × V) → List K
  keys [] = []
  keys ((j, _) ∷ m) = j ∷ keys m

  pub get-set :
      (k j : K) (v : V) (m : List (K × V))
      → get j (set k v m) ≡ (if k == j then some v else get j m)
  unfolding get set
  get-set k j v [] = refl
  get-set k j v ((i, w) ∷ m) =
      ground (arith, e.same_exactly k j, e.same_exactly i k, e.same_exactly i j, get-set k j v m)

  pub get-delete :
      (k j : K) (m : List (K × V)) → get j (delete k m) ≡ (if k == j then none else get j m)
  unfolding get delete
  get-delete k j [] = ground arith
  get-delete k j ((i, w) ∷ m) =
      ground (arith, e.same_exactly k j, e.same_exactly i k, e.same_exactly i j, get-delete k j m)

  pub get-set_self : (k : K) (v : V) (m : List (K × V)) → get k (set k v m) ≡ some v
  get-set_self k v m = ground (arith, get-set k k v m, e.same_exactly k k)

  pub get-delete_self : (k : K) (m : List (K × V)) → get k (delete k m) ≡ none
  get-delete_self k m = ground (arith, get-delete k k m, e.same_exactly k k)

  pub get-set_ne :
      (k j : K) (v : V) (m : List (K × V)) → (k == j) ≡ false → get j (set k v m) ≡ get j m
  get-set_ne k j v m h = ground (arith, get-set k j v m)

  pub get-delete_ne : (k j : K) (m : List (K × V)) → (k == j) ≡ false → get j (delete k m) ≡ get j m
  get-delete_ne k j m h = ground (arith, get-delete k j m)

  -- What holds of every entry holds of one that is found.
  pub get-all :
      (p : K × V → Bool) (k : K) (v : V) (m : List (K × V))
      → all p m ≡ true
      → get k m ≡ some v
      → p (k, v) ≡ true
  unfolding get
  get-all p k v [] h g = absurd (cc)
  get-all p k v ((j, w) ∷ m) h g = grind (arith, e.same_exactly j k, get-all p k v m)
