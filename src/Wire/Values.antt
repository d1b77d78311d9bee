-- ===== src/Wire/Values.antt =====
-- The values of `JSON.parse`, and src/protocol/encode.ts's `canonicalize`.
-- A number is `num` if it is natural (-0 counts as 0), `real` if it is finite and negative or not
-- whole (its sign, the part before the point, the digits after it), or `infinite`, what `JSON.parse`
-- makes of a numeral too large for a double (`true` for the negative one).
use Prim.Native.String
use Prim.Native.Nat.{Ordering}
use tailii_host.Prelude.{
  ℕ, String, Bool, true, false, ◌&&◌, Option, none, some, or_option, ◌==◌, ==_iff, string_eq,
  if◌then◌else◌, ◌≡◌, refl, arith,
}
use mathlib.Core.Option

mutual
  pub data Value : Type 0 where
    null : Value
    bool : Bool → Value
    num : ℕ → Value
    real : Bool → ℕ → String → Value
    infinite : Bool → Value
    str : String → Value
    arr : Items → Value
    obj : Fields → Value

  -- An object's own properties. One that is `undefined` is not there, as `compact` leaves it out.
  pub data Fields : Type 0 where
    end : Fields
    field : String → Value → Fields → Fields

  pub data Items : Type 0 where
    nil : Items
    cons : Value → Items → Items

-- `raw[key]`: `none` is `undefined`.
abbrev pub lookup : String → Fields → Option Value
lookup key end = none
lookup key (field k v rest) = let later = lookup key rest in if k == key then some v else later

-- The entries of one part of an object literal, followed by those of the next.
abbrev pub join : Fields → Fields → Fields
join end gs = gs
join (field k v fs) gs = field k v (join fs gs)

-- An entry put where `keys.sort()` puts its key. JavaScript orders by UTF-16 units, which is the
-- order of the bytes but for code points beyond U+FFFF.
unfoldable pub insert_field : String → Value → Fields → Fields
insert_field k v end = field k v end
insert_field k v (field j w rest) =
    let further = field j w (insert_field k v rest) in
    let here = field k v (field j w rest) in
    if j == k then here else elim (String.compare j k) [ Ordering.lt ↦ further | _ ↦ here ]

-- `canonicalize(value)`: the keys of every object sorted.
unfoldable mutual
  pub canonicalize : Value → Value
  canonicalize null = null
  canonicalize (bool b) = bool b
  canonicalize (num n) = num n
  canonicalize (real s n d) = real s n d
  canonicalize (infinite s) = infinite s
  canonicalize (str s) = str s
  canonicalize (arr vs) = arr (canonicalize_items vs)
  canonicalize (obj fs) = obj (canonicalize_fields fs)

  pub canonicalize_items : Items → Items
  canonicalize_items nil = nil
  canonicalize_items (cons v vs) = cons (canonicalize v) (canonicalize_items vs)

  pub canonicalize_fields : Fields → Fields
  canonicalize_fields end = end
  canonicalize_fields (field k v fs) = insert_field k (canonicalize v) (canonicalize_fields fs)

-- `Number.isFinite` of every number inside: `JSON.stringify` writes the others as `null`.
unfoldable mutual
  pub is_finite : Value → Bool
  is_finite null = true
  is_finite (bool b) = true
  is_finite (num n) = true
  is_finite (real s n d) = true
  is_finite (infinite s) = false
  is_finite (str s) = true
  is_finite (arr vs) = are_finite vs
  is_finite (obj fs) = has_finite fs

  pub are_finite : Items → Bool
  are_finite nil = true
  are_finite (cons v vs) = is_finite v && are_finite vs

  pub has_finite : Fields → Bool
  has_finite end = true
  has_finite (field k v fs) = is_finite v && has_finite fs

pub lookup-join :
    (k : String) (fs gs : Fields) → lookup k (join fs gs) ≡ or_option (lookup k fs) (lookup k gs)
lookup-join k end gs = refl
lookup-join k (field j v fs) gs = ground (arith, lookup-join k fs gs)

pub lookup-insert_field :
    (j k : String) (v : Value) (fs : Fields)
    → lookup j (insert_field k v fs) ≡ (if k == j then some v else lookup j fs)
unfolding insert_field
lookup-insert_field j k v end = refl
lookup-insert_field j k v (field i w fs) = ground (
  arith,
  lookup-insert_field j k v fs,
  ==_iff {A = String} i k,
  ==_iff {A = String} k j,
  ==_iff {A = String} i j,
)

-- Sorting the keys keeps what every key stands for.
pub lookup-canonicalize_fields :
    (k : String) (fs : Fields)
    → lookup k (canonicalize_fields fs) ≡ Option.map canonicalize (lookup k fs)
unfolding canonicalize
lookup-canonicalize_fields k end = refl
lookup-canonicalize_fields k (field j v fs) = ground (
  arith,
  lookup-insert_field k j (canonicalize v) (canonicalize_fields fs),
  lookup-canonicalize_fields k fs,
)

-- Neither an array nor an object.
abbrev pub is_scalar : Value → Bool
is_scalar (arr vs) = false
is_scalar (obj fs) = false
is_scalar _ = true

pub plain-scalar : (v : Value) → is_scalar v ≡ true → canonicalize v ≡ v
unfolding canonicalize
plain-scalar v h = ground arith
