-- ===== src/Wire/Kinds.antt =====
-- The tests of src/protocol/common.ts and decode.ts on a value that is taken as it is.
use tailii_host.Prelude.{ℕ, String, Bool, true, false, not, ◌&&◌, List, ◌==◌, string_eq, leb, arith}
use tailii_host.Wire.Values.{Value, null, bool, num, real, str, plain-scalar}
use tailii_host.Wire.Shapes.{
  string_type, number_type, boolean_type, literals, nullable, is_string, is_number, is_boolean,
  is_one_of, string-typed, number-typed, boolean-typed, nullable_string-typed, literals-typed,
}
use tailii_host.Wire.Reading.{Kind}

-- `typeof value === "string"`.
abbrev pub a_string : Kind
a_string = record {
  holds = is_string;
  type = string_type;
  plain = λ v h. plain-scalar v (ground arith);
  typed = λ v h. string-typed v (ground arith);
}

-- `typeof value === "boolean"`.
abbrev pub a_boolean : Kind
a_boolean = record {
  holds = is_boolean;
  type = boolean_type;
  plain = λ v h. plain-scalar v (ground arith);
  typed = λ v h. boolean-typed v (ground arith);
}

-- `typeof value === "number"`.
abbrev pub any_number : Kind
any_number = record {
  holds = is_number;
  type = number_type;
  plain = λ v h. plain-scalar v (ground arith);
  typed = λ v h. number-typed v (ground arith);
}

-- `typeof value === "number" && Number.isFinite(value)`.
abbrev is_finite_number : Value → Bool
is_finite_number (num n) = true
is_finite_number (real s n d) = true
is_finite_number _ = false

abbrev pub a_number : Kind
a_number = record {
  holds = is_finite_number;
  type = number_type;
  plain = λ v h. plain-scalar v (ground arith);
  typed = λ v h. number-typed v (ground arith);
}

-- `value === null || typeof value === "string"`.
abbrev is_nullable_string : Value → Bool
is_nullable_string null = true
is_nullable_string (str s) = true
is_nullable_string _ = false

abbrev pub string_or_null : Kind
string_or_null = record {
  holds = is_nullable_string;
  type = nullable string_type;
  plain = λ v h. plain-scalar v (ground arith);
  typed = λ v h. nullable_string-typed v (ground arith);
}

-- One of some texts.
abbrev pub one_of : List String → Kind
one_of names = record {
  holds = is_one_of names;
  type = literals names;
  plain = λ v h. plain-scalar v (ground arith);
  typed = λ v h. literals-typed names v (ground arith);
}

-- A text with `text.length !== 0`.
abbrev is_text : Value → Bool
is_text (str s) = not (s == "")
is_text _ = false

abbrev pub non_empty : Kind
non_empty = record {
  holds = is_text;
  type = string_type;
  plain = λ v h. plain-scalar v (ground arith);
  typed = λ v h. string-typed v (ground arith);
}

-- A natural number in a range: `Number.isInteger(n) && n >= low && n <= high`.
abbrev is_between : ℕ → ℕ → Value → Bool
is_between low high (num n) = leb low n && leb n high
is_between low high _ = false

abbrev pub between : ℕ → ℕ → Kind
between low high = record {
  holds = is_between low high;
  type = number_type;
  plain = λ v h. plain-scalar v (ground arith);
  typed = λ v h. number-typed v (ground arith);
}

-- A whole number of at least `low`, for a natural `low`.
abbrev is_from : ℕ → Value → Bool
is_from low (num n) = leb low n
is_from low _ = false

abbrev pub from : ℕ → Kind
from low = record {
  holds = is_from low;
  type = number_type;
  plain = λ v h. plain-scalar v (ground arith);
  typed = λ v h. number-typed v (ground arith);
}

-- `value === true`.
abbrev is_true : Value → Bool
is_true (bool b) = b
is_true _ = false

abbrev pub the_true : Kind
the_true = record {
  holds = is_true;
  type = boolean_type;
  plain = λ v h. plain-scalar v (ground arith);
  typed = λ v h. boolean-typed v (ground arith);
}
