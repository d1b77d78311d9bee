-- ===== src/Wire/Shapes.antt =====
-- The types of src/protocol/messages.ts, and which values have them.
use tailii_host.Prelude.{String, Bool, true, false, ◌&&◌, ◌||◌, List, Option, none, some, ◌≡◌}
use tailii_host.Prelude.Text.{has_name}
use tailii_host.Wire.Values.{
  Value, null, bool, num, real, infinite, str, arr, obj, Items, nil, cons, Fields, lookup,
}

mutual
  -- `literals` is a union of string literals, `nullable t` is `t | null`.
  pub data Shape : Type 0 where
    string_type number_type boolean_type : Shape
    literals : List String → Shape
    nullable : Shape → Shape
    array_type : Shape → Shape
    object_type : Entries → Shape

  -- The properties of an object type: the name, whether it is optional, and its type.
  pub data Entries : Type 0 where
    no_entries : Entries
    entry : String → Bool → Shape → Entries → Entries

abbrev pub is_null : Value → Bool
is_null null = true
is_null _ = false

abbrev pub is_string : Value → Bool
is_string (str s) = true
is_string _ = false

abbrev pub is_number : Value → Bool
is_number (num n) = true
is_number (real s n d) = true
is_number (infinite s) = true
is_number _ = false

abbrev pub is_boolean : Value → Bool
is_boolean (bool b) = true
is_boolean _ = false

abbrev pub is_one_of : List String → Value → Bool
is_one_of names (str s) = has_name s names
is_one_of names _ = false

abbrev pub every_item : (Value → Bool) → Items → Bool
every_item p nil = true
every_item p (cons v vs) = p v && every_item p vs

abbrev pub is_array_of : (Value → Bool) → Value → Bool
is_array_of p (arr vs) = every_item p vs
is_array_of p _ = false

abbrev pub is_object_with : (Fields → Bool) → Value → Bool
is_object_with p (obj fs) = p fs
is_object_with p _ = false

unfoldable mutual
  pub conforms : Shape → Value → Bool
  conforms string_type v = is_string v
  conforms number_type v = is_number v
  conforms boolean_type v = is_boolean v
  conforms (literals names) v = is_one_of names v
  conforms (nullable t) v = is_null v || conforms t v
  conforms (array_type t) v = is_array_of (conforms t) v
  conforms (object_type es) v = is_object_with (conforms_entries es) v

  pub conforms_entries : Entries → Fields → Bool
  conforms_entries no_entries fs = true
  conforms_entries (entry k optional t es) fs =
      elim (lookup k fs) [ none ↦ optional | some v ↦ conforms t v ] && conforms_entries es fs

-- A property that may be missing.
abbrev pub conforms_option : Bool → Shape → Option Value → Bool
conforms_option optional t none = optional
conforms_option optional t (some v) = conforms t v

pub string-typed : (v : Value) → is_string v ≡ true → conforms string_type v ≡ true
unfolding conforms
string-typed v h = h

pub number-typed : (v : Value) → is_number v ≡ true → conforms number_type v ≡ true
unfolding conforms
number-typed v h = h

pub boolean-typed : (v : Value) → is_boolean v ≡ true → conforms boolean_type v ≡ true
unfolding conforms
boolean-typed v h = h

pub literals-typed :
    (names : List String) (v : Value)
    → is_one_of names v ≡ true
    → conforms (literals names) v ≡ true
unfolding conforms
literals-typed names v h = h

pub nullable_string-typed :
    (v : Value) → (is_null v || is_string v) ≡ true → conforms (nullable string_type) v ≡ true
unfolding conforms
nullable_string-typed v h = h
