-- ===== src/Wire/Readers.antt =====
-- src/protocol/common.ts: `requireString` and the other readings of one property, and those that
-- decode.ts adds.
use mathlib.Core.Option
use tailii_host.Prelude.{
  String, Bool, true, false, List, [], ◌∷◌, Option, none, some, string_eq, if◌then◌else◌, ◌≡◌, refl,
  arith,
}
use tailii_host.Wire.Values.{Value, null, bool, canonicalize}
use tailii_host.Wire.Shapes.{is_null, conforms_option}
use tailii_host.Wire.Reading.{Result, ok, fail, missing_field, Kind, Element, Reader}
use tailii_host.Wire.Kinds.{a_string, a_boolean, a_number, string_or_null, one_of}

-- A value that is taken if it passes the test.
abbrev pub the : Kind → Element
the k = record {
  run = λ v. if k.holds v then ok v else fail missing_field;
  type = k.type;
  steady = λ v w h. ground (arith, k.plain v);
  typed = λ v w h. ground (arith, k.typed v);
  refuses = λ v r h. ground arith;
}

abbrev pub one : Result Value → Result (Option Value)
one (ok v) = ok (some v)
one (fail reason) = fail reason

abbrev need : (Value → Result Value) → Option Value → Result (Option Value)
need f none = fail missing_field
need f (some v) = one (f v)

pub need-steady :
    (e : Element) (o out : Option Value)
    → need e.run o ≡ ok out
    → need e.run (Option.map canonicalize out) ≡ ok out
need-steady e none out h = absurd (cc)
need-steady e (some v) none h = absurd (ground arith)
need-steady e (some v) (some w) h = ground (arith, e.steady v w)

pub need-typed :
    (e : Element) (o out : Option Value)
    → need e.run o ≡ ok out
    → conforms_option false e.type out ≡ true
need-typed e none out h = absurd (cc)
need-typed e (some v) none h = absurd (ground arith)
need-typed e (some v) (some w) h = ground (arith, e.typed v w)

-- A value that must be there.
abbrev pub required : Element → Reader
required e = record {
  read = need e.run;
  optional = false;
  type = e.type;
  steady = need-steady e;
  typed = need-typed e;
  refuses = λ o r h. grind (arith, e.refuses);
}

-- A value that is left out if it does not pass the test.
abbrev pub take : (Value → Bool) → Option Value → Option Value
take p none = none
take p (some v) = if p v then some v else none

abbrev pub optional : Kind → Reader
optional k = record {
  read = λ o. ok (take k.holds o);
  optional = true;
  type = k.type;
  steady = λ o out h. grind (arith, k.plain);
  typed = λ o out h. grind (arith, k.typed);
  refuses = λ o r h. ground arith;
}

-- The same with a default, `… ?? value`.
abbrev take_or : (Value → Bool) → Value → Option Value → Value
take_or p d none = d
take_or p d (some v) = if p v then v else d

abbrev pub optional_or : (k : Kind) (d : Value) → k.holds d ≡ true → Reader
optional_or k d good = record {
  read = λ o. ok (some (take_or k.holds d o));
  optional = false;
  type = k.type;
  steady = λ o out h. grind (arith, k.plain, good);
  typed = λ o out h. grind (arith, k.typed, good);
  refuses = λ o r h. ground arith;
}

-- A value that is left out if it fails the first test, and an error if it fails the second alone.
abbrev checked : (Value → Bool) → (Value → Bool) → Option Value → Result (Option Value)
checked p q none = ok none
checked p q (some v) = if p v then if q v then ok (some v) else fail missing_field else ok none

abbrev pub optional_where : Kind → Kind → Reader
optional_where k l = record {
  read = checked k.holds l.holds;
  optional = true;
  type = l.type;
  steady = λ o out h. grind (arith, l.plain);
  typed = λ o out h. grind (arith, l.typed);
  refuses = λ o r h. ground arith;
}

-- A value that is read unless it is `undefined`.
abbrev unless_missing : (Value → Result Value) → Option Value → Result (Option Value)
unless_missing f none = ok none
unless_missing f (some v) = one (f v)

abbrev pub unless_undefined : Element → Reader
unless_undefined e = record {
  read = unless_missing e.run;
  optional = true;
  type = e.type;
  steady = λ o out h. grind (arith, e.steady);
  typed = λ o out h. grind (arith, e.typed);
  refuses = λ o r h. grind (arith, e.refuses);
}

-- A value that is read unless it is `undefined` or `null`, for one that is never read as `null`.
abbrev unless_null : (Value → Result Value) → Option Value → Result (Option Value)
unless_null f none = ok none
unless_null f (some v) = if is_null v then ok none else one (f v)

abbrev pub unless_nullish :
    (e : Element) → ((v w : Value) → e.run v ≡ ok w → is_null (canonicalize w) ≡ false) → Reader
unless_nullish e never = record {
  read = unless_null e.run;
  optional = true;
  type = e.type;
  steady = λ o out h. grind (arith, e.steady, never);
  typed = λ o out h. grind (arith, e.typed);
  refuses = λ o r h. grind (arith, e.refuses);
}

-- `requireString`, `optionalString` and the others.
abbrev pub require_string : Reader
require_string = required (the a_string)

abbrev pub optional_string : Reader
optional_string = optional a_string

abbrev pub optional_nullable_string : Reader
optional_nullable_string = optional string_or_null

abbrev pub require_number : Reader
require_number = required (the a_number)

abbrev pub optional_number : Reader
optional_number = optional a_number

abbrev pub require_boolean : Reader
require_boolean = required (the a_boolean)

abbrev pub optional_boolean : Reader
optional_boolean = optional a_boolean

-- `requireString`, and an error if it is none of the texts.
abbrev pub require_one_of : List String → Reader
require_one_of names = required (the (one_of names))

-- `optionalString`, left out if it is none of the texts.
abbrev pub optional_one_of : List String → Reader
optional_one_of names = optional (one_of names)

-- `optionalString`, and an error if it is another text.
abbrev pub optional_only : String → Reader
optional_only name = optional_where a_string (one_of (name ∷ []))

-- `optionalNullableString(raw, key) ?? null`.
abbrev pub string_or_else_null : Reader
string_or_else_null = optional_or string_or_null null refl

-- `optionalBoolean(raw, key) ?? false`.
abbrev pub boolean_or_else_false : Reader
boolean_or_else_false = optional_or a_boolean (bool false) refl
