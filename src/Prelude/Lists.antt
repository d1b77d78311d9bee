-- ===== src/Prelude/Lists.antt =====
-- Lists measured and indexed by native numbers, under the library's names.
use Prim.Native.Nat.{ℕ, zero, suc, ◌+◌}
use mathlib.Core.Path.{◌≡◌, refl, ap, subst}
use mathlib.Core.Logic.{◌↔◌, ◌⊎◌, inl, inr}
use mathlib.Core.Bool.{Bool, true, false, ◌&&◌, ◌||◌}
use mathlib.Core.List.{List, [], ◌∷◌, ◌++◌}
use mathlib.Core.Option.{Option, none, some}
use native.Mathlib.Omega.{arith}
use tailii_host.Prelude.Tests.{if◌then◌else◌, Bool-cases}

module _ {ℓ} {A : Type ℓ} where
  abbrev pub length : List A → ℕ
  length [] = 0
  length (x ∷ xs) = suc (length xs)

  abbrev pub get_elem? : List A → ℕ → Option A
  get_elem? [] i = none
  get_elem? (x ∷ xs) zero = some x
  get_elem? (x ∷ xs) (suc i) = get_elem? xs i

  abbrev pub take : ℕ → List A → List A
  take zero xs = []
  take (suc n) [] = []
  take (suc n) (x ∷ xs) = x ∷ take n xs

  abbrev pub drop : ℕ → List A → List A
  drop zero xs = xs
  drop (suc n) [] = []
  drop (suc n) (x ∷ xs) = drop n xs

  abbrev pub replicate : ℕ → A → List A
  replicate zero a = []
  replicate (suc n) a = a ∷ replicate n a

  -- `xs.flat()` of a list of lists.
  abbrev pub concat : List (List A) → List A
  concat [] = []
  concat (xs ∷ xss) = xs ++ concat xss

  -- `xs.some(p)`, `xs.every(p)`, `xs.filter(p)` and `xs.find(p)`.
  abbrev pub any : (A → Bool) → List A → Bool
  any p [] = false
  any p (x ∷ xs) = p x || any p xs

  abbrev pub all : (A → Bool) → List A → Bool
  all p [] = true
  all p (x ∷ xs) = p x && all p xs

  abbrev pub filter : (A → Bool) → List A → List A
  filter p [] = []
  filter p (x ∷ xs) = let rest = filter p xs in if p x then x ∷ rest else rest

  abbrev pub find? : (A → Bool) → List A → Option A
  find? p [] = none
  find? p (x ∷ xs) = let rest = find? p xs in if p x then some x else rest

  pub length-append : (xs ys : List A) → length (xs ++ ys) ≡ length xs + length ys
  length-append [] ys = omega arith
  length-append (x ∷ xs) ys = omega (arith, length-append xs ys)

  pub eq_nil : (xs : List A) → length xs ≡ 0 → xs ≡ []
  eq_nil [] h = refl
  eq_nil (x ∷ xs) h = absurd (omega arith)

  pub take_all : (xs : List A) → take (length xs) xs ≡ xs
  take_all [] = refl
  take_all (x ∷ xs) = ap (λ t. x ∷ t) (take_all xs)

  pub concat-append : (xss yss : List (List A)) → concat (xss ++ yss) ≡ concat xss ++ concat yss
  concat-append [] yss = refl
  concat-append (xs ∷ xss) yss = simp (concat-append xss yss, mathlib.Core.List.append_assoc)

module _ {ℓ κ} {A : Type ℓ} (P : A → Type κ) where
  -- Every element satisfies `P`.
  abbrev pub All : List A → Type κ
  All [] = Unit
  All (x ∷ xs) = P x × All xs

  pub All-append : (xs ys : List A) → All xs → All ys → All (xs ++ ys)
  All-append [] ys h k = k
  All-append (x ∷ xs) ys (p, h) k = (p, All-append xs ys h k)

if_true : {A : Type 0} (b : Bool) (x y : A) → b ≡ true → (if b then x else y) ≡ x
if_true b x y e = rw e refl

if_false : {A : Type 0} (b : Bool) (x y : A) → b ≡ false → (if b then x else y) ≡ y
if_false b x y e = rw e refl

module _ {A : Type 0} {P Q : A → Type 0} where
  pub All-map : ((x : A) → P x → Q x) → (xs : List A) → All P xs → All Q xs
  All-map f [] h = tt
  All-map f (x ∷ xs) (p, h) = (f x p, All-map f xs h)

module _ {A : Type 0} (f : A → Bool) where
  pub any-false : (xs : List A) → (any f xs ≡ false) ↔ All (λ x. f x ≡ false) xs
  any-false [] = (λ e. tt, λ h. refl)
  any-false (x ∷ xs) = (
    λ e. (ground arith, (any-false xs).0 (ground arith)),
    λ (p, h). ground (arith, (any-false xs).1 h),
  )

  pub find?-none : (xs : List A) → (find? f xs ≡ none) ↔ All (λ x. f x ≡ false) xs
  find?-none [] = (λ e. tt, λ h. refl)
  find?-none (x ∷ xs) = (
    λ e. (ground arith, (find?-none xs).0 (ground arith)),
    λ (p, h). ground (arith, (find?-none xs).1 h),
  )

  -- What holds of all that a filter leaves.
  pub All-filter :
      (P : A → Type 0) (xs : List A) → All P (filter f xs) → All (λ x. (f x ≡ false) ⊎ P x) xs
  All-filter P [] h = tt
  All-filter P (x ∷ xs) h = elim (Bool-cases (f x)) [
    | inl kept ↦
        let both : All P (x ∷ filter f xs) = subst (All P) (if_true _ _ _ kept) h in
        (inr both.0, All-filter P xs both.1)
    | inr left ↦ (inl left, All-filter P xs (subst (All P) (if_false _ _ _ left) h))
  ]

  pub filter-nil : (xs : List A) → (filter f xs ≡ []) ↔ All (λ x. f x ≡ false) xs
  filter-nil [] = (λ e. tt, λ h. refl)
  filter-nil (x ∷ xs) = (
    λ e. (ground arith, (filter-nil xs).0 (ground arith)),
    λ (p, h). ground (arith, (filter-nil xs).1 h),
  )
