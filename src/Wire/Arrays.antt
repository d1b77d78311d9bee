-- ===== src/Wire/Arrays.antt =====
-- Arrays: `requireArray(raw, key).map(f)`, cut by `slice(0, n)` where decode.ts bounds it.
use tailii_host.Prelude.{ℕ, zero, suc, true, false, Option, none, some, ◌≡◌, refl, arith}
use tailii_host.Wire.Values.{
  Value, null, bool, num, real, infinite, str, arr, obj, Items, nil, cons, canonicalize,
  canonicalize_items,
}
use tailii_host.Wire.Shapes.{Shape, array_type, is_null, every_item, conforms}
use tailii_host.Wire.Reading.{Reason, Result, ok, fail, missing_field, Element, Reader}
use tailii_host.Wire.Kinds.{a_string}
use tailii_host.Wire.Readers.{the, required}

-- `vs.map(f)`, where `f` may throw.
abbrev pub map_items : (Value → Result Value) → Items → Result Items
map_items f nil = ok nil
map_items f (cons v vs) = elim (f v) [
  | ok w ↦ elim (map_items f vs) [ ok ws ↦ ok (cons w ws) | fail reason ↦ fail reason ]
  | fail reason ↦ fail reason
]

-- `vs.slice(0, n)`.
abbrev pub take_items : ℕ → Items → Items
take_items zero vs = nil
take_items (suc n) nil = nil
take_items (suc n) (cons v vs) = cons v (take_items n vs)

-- The bound, where there is one.
abbrev pub slice : Option ℕ → Items → Items
slice none vs = vs
slice (some n) vs = take_items n vs

abbrev pub count : Items → ℕ
count nil = 0
count (cons v vs) = suc (count vs)

map_items-steady :
    (e : Element) (vs ws : Items)
    → map_items e.run vs ≡ ok ws
    → map_items e.run (canonicalize_items ws) ≡ ok ws
unfolding canonicalize
map_items-steady e nil ws h = grind arith
map_items-steady e (cons v vs) ws h = grind (arith, e.steady, map_items-steady e vs)

map_items-typed :
    (e : Element) (vs ws : Items)
    → map_items e.run vs ≡ ok ws
    → every_item (conforms e.type) ws ≡ true
map_items-typed e nil ws h = grind arith
map_items-typed e (cons v vs) ws h = grind (arith, e.typed, map_items-typed e vs)

take-map_items :
    (f : Value → Result Value) (n : ℕ) (vs ws : Items)
    → map_items f (take_items n vs) ≡ ok ws
    → take_items n (canonicalize_items ws) ≡ canonicalize_items ws
unfolding canonicalize
take-map_items f zero vs ws h = grind arith
take-map_items f (suc n) nil ws h = grind arith
take-map_items f (suc n) (cons v vs) ws h = grind (arith, take-map_items f n vs)

abbrev pub run_array : (Value → Result Value) → Option ℕ → Value → Result Value
run_array f limit (arr vs) = elim (map_items f (slice limit vs)) [
  | ok ws ↦ ok (arr ws)
  | fail reason ↦ fail reason
]
run_array f limit _ = fail missing_field

pub run_array-steady :
    (e : Element) (limit : Option ℕ) (v w : Value)
    → run_array e.run limit v ≡ ok w
    → run_array e.run limit (canonicalize w) ≡ ok w
unfolding canonicalize
run_array-steady e none (arr vs) w h = grind (arith, map_items-steady e)
run_array-steady e (some n) (arr vs) w h = grind (arith, map_items-steady e, take-map_items e.run n)
run_array-steady e limit null w h = absurd (cc)
run_array-steady e limit (bool b) w h = absurd (cc)
run_array-steady e limit (num n) w h = absurd (cc)
run_array-steady e limit (real s n d) w h = absurd (cc)
run_array-steady e limit (infinite s) w h = absurd (cc)
run_array-steady e limit (str s) w h = absurd (cc)
run_array-steady e limit (obj fs) w h = absurd (cc)

as_array-typed :
    (t : Shape) (r : Result Items) (w : Value)
    → ((ws : Items) → r ≡ ok ws → every_item (conforms t) ws ≡ true)
    → elim r [ ok ws ↦ ok (arr ws) | fail reason ↦ fail reason ] ≡ ok w
    → conforms (array_type t) w ≡ true
unfolding conforms
as_array-typed t (ok ws) w all_typed h = ground (arith, all_typed ws refl)
as_array-typed t (fail reason) w all_typed h = absurd (cc)

pub run_array-typed :
    (e : Element) (limit : Option ℕ) (v w : Value)
    → run_array e.run limit v ≡ ok w
    → conforms (array_type e.type) w ≡ true
run_array-typed e limit (arr vs) w h =
    as_array-typed e.type _ w (map_items-typed e (slice limit vs)) h
run_array-typed e limit null w h = absurd (cc)
run_array-typed e limit (bool b) w h = absurd (cc)
run_array-typed e limit (num n) w h = absurd (cc)
run_array-typed e limit (real s n d) w h = absurd (cc)
run_array-typed e limit (infinite s) w h = absurd (cc)
run_array-typed e limit (str s) w h = absurd (cc)
run_array-typed e limit (obj fs) w h = absurd (cc)

pub run_array-is_null :
    (e : Element) (limit : Option ℕ) (v w : Value)
    → run_array e.run limit v ≡ ok w
    → is_null (canonicalize w) ≡ false
unfolding canonicalize
run_array-is_null e limit v w h = grind arith

map_items-refuses :
    (e : Element) (vs : Items) (r : Reason) → map_items e.run vs ≡ fail r → r ≡ missing_field
map_items-refuses e nil r h = absurd (cc)
map_items-refuses e (cons v vs) r h = grind (arith, e.refuses, map_items-refuses e vs)

pub run_array-refuses :
    (e : Element) (limit : Option ℕ) (v : Value) (r : Reason)
    → run_array e.run limit v ≡ fail r
    → r ≡ missing_field
run_array-refuses e limit v r h = grind (arith, map_items-refuses e)

abbrev pub array_slice : Option ℕ → Element → Element
array_slice limit e = record {
  run = run_array e.run limit;
  type = array_type e.type;
  steady = run_array-steady e limit;
  typed = run_array-typed e limit;
  refuses = run_array-refuses e limit;
}

-- `requireArray(raw, key).map(f)`.
abbrev pub require_array : Element → Reader
require_array e = required (array_slice none e)

-- `requireArray(raw, key).slice(0, n).map(f)`.
abbrev pub require_array_upto : ℕ → Element → Reader
require_array_upto n e = required (array_slice (some n) e)

-- `requireStringArray`.
abbrev pub require_string_array : Reader
require_string_array = require_array (the a_string)
