-- ===== src/Wire/Finite.antt =====
-- A message of finite numbers is encoded to a value of finite numbers.
use tailii_host.Prelude.{String, true, List, some, string_eq, ◌≡◌, refl, arith}
use tailii_host.Wire.Values.{
  Value, null, bool, num, real, infinite, str, arr, obj, Items, nil, cons, Fields, end, field,
  lookup, insert_field, canonicalize, canonicalize_items, canonicalize_fields, is_finite,
  are_finite, has_finite,
}
use tailii_host.Wire.Encode.{without, set_field}

insert_field-finite :
    (k : String) (v : Value) (fs : Fields)
    → is_finite v ≡ true
    → has_finite fs ≡ true
    → has_finite (insert_field k v fs) ≡ true
unfolding insert_field is_finite
insert_field-finite k v end h g = ground arith
insert_field-finite k v (field j w fs) h g = ground (arith, insert_field-finite k v fs)

mutual
  unfolding canonicalize is_finite

  pub canonicalize-finite : (v : Value) → is_finite v ≡ true → is_finite (canonicalize v) ≡ true
  canonicalize-finite null h = refl
  canonicalize-finite (bool b) h = refl
  canonicalize-finite (num n) h = refl
  canonicalize-finite (real s n d) h = refl
  canonicalize-finite (infinite s) h = h
  canonicalize-finite (str s) h = refl
  canonicalize-finite (arr vs) h = canonicalize_items-finite vs h
  canonicalize-finite (obj fs) h = canonicalize_fields-finite fs h

  canonicalize_items-finite :
      (vs : Items) → are_finite vs ≡ true → are_finite (canonicalize_items vs) ≡ true
  canonicalize_items-finite nil h = refl
  canonicalize_items-finite (cons v vs) h =
      ground (arith, canonicalize-finite v, canonicalize_items-finite vs)

  canonicalize_fields-finite :
      (fs : Fields) → has_finite fs ≡ true → has_finite (canonicalize_fields fs) ≡ true
  canonicalize_fields-finite end h = refl
  canonicalize_fields-finite (field k v fs) h =
      insert_field-finite k (canonicalize v) (canonicalize_fields fs)
        (canonicalize-finite v (ground arith)) (canonicalize_fields-finite fs (ground arith))

pub without-finite :
    (names : List String) (fs : Fields)
    → has_finite fs ≡ true
    → has_finite (without names fs) ≡ true
unfolding without is_finite
without-finite names end h = refl
without-finite names (field k v fs) h = ground (arith, without-finite names fs)

pub set_field-finite :
    (k : String) (v : Value) (fs : Fields)
    → is_finite v ≡ true
    → has_finite fs ≡ true
    → has_finite (set_field k v fs) ≡ true
unfolding set_field is_finite
set_field-finite k v end h g = ground arith
set_field-finite k v (field j w fs) h g = ground (arith, set_field-finite k v fs)

pub lookup-finite :
    (k : String) (fs : Fields) (v : Value)
    → has_finite fs ≡ true
    → lookup k fs ≡ some v
    → is_finite v ≡ true
unfolding is_finite
lookup-finite k end v h e = absurd (cc)
lookup-finite k (field j w fs) v h e = ground (arith, lookup-finite k fs v)
