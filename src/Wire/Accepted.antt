-- ===== src/Wire/Accepted.antt =====
-- Which lines are decoded, and to which type and version.
use tailii_host.Prelude.{
  String, Bool, true, false, not, ◌&&◌, ◌||◌, Option, some, is_some, string_eq, ◌≡◌, ap, sym, ◌∙◌,
  arith, all, zero, leb, ltb, ◌==◌, refl,
}
use tailii_host.Prelude.Maps.{get, get-all}
use tailii_host.Wire.Values.{Value, num, real, infinite, obj, Fields, lookup}
use tailii_host.Wire.Reading.{ok}
use tailii_host.Wire.Table.{Case, cases}
use tailii_host.Wire.Types.Union.{control_message}
use tailii_host.Wire.Decode.{
  decode_control_message, decode_value, version_of, is_unsupported, is_legacy, is_approval,
}
use tailii_host.Wire.Inversion.{
  decode_case-inversion, decode_switch-inversion, decode_typed-inversion, decode_value-inversion,
}
use tailii_host.Wire.Sent.{type_of}

-- `v <= 2`.
abbrev pub is_at_most_two : Value → Bool
is_at_most_two (num n) = leb n 2
is_at_most_two (real negative n decimals) = negative || ltb n 2
is_at_most_two (infinite negative) = negative
is_at_most_two _ = true

abbrev pub is_zero : Value → Bool
is_zero (num zero) = true
is_zero _ = false

-- The names of the members of the union.
abbrev pub is_declared_type : String → Bool
is_declared_type type = is_some (get type control_message)

-- A version and a type of which messages may be.
abbrev pub is_acceptable : Value → String → Bool
is_acceptable v type =
    is_declared_type type
    && is_at_most_two v
    && (not (is_zero v) || type == "approval_request" || type == "approval_decision")

cases_declared : all (λ entry. is_declared_type entry.0) cases ≡ true
unfolding get
cases_declared = refl

at_most_two_if_supported : (v : Value) → is_unsupported v ≡ false → is_at_most_two v ≡ true
at_most_two_if_supported v u = ground arith

legacy_if_zero : (v : Value) → is_zero v ≡ true → is_legacy v ≡ true
legacy_if_zero v z = ground arith

pub acceptable :
    (v : Value) (type : String) (c : Case)
    → get type cases ≡ some c
    → is_unsupported v ≡ false
    → (is_legacy v && not (is_approval type)) ≡ false
    → is_acceptable v type ≡ true
acceptable v type c known u l = ground (
  arith,
  get-all (λ entry. is_declared_type entry.0) type c cases cases_declared known,
  at_most_two_if_supported v u,
  legacy_if_zero v,
  l,
)

value-acceptable :
    (o : Option Value) (m : Fields)
    → decode_value o ≡ ok m
    → (raw : Fields) × (o ≡ some (obj raw))
      × (lookup "type" m ≡ lookup "type" raw)
      × (lookup "v" m ≡ some (version_of (lookup "v" raw)))
      × (is_acceptable (version_of (lookup "v" raw)) (type_of m) ≡ true)
value-acceptable o m h =
    let (raw, type, at_o, at_type, typed) = decode_value-inversion o m h in
    let v = version_of (lookup "v" raw) in
    let (u, l, switched) = decode_typed-inversion type v raw m typed in
    let (c, known, cased) = decode_switch-inversion type v raw (get type cases) m switched in
    let (own, inner, e, e2, f) = decode_case-inversion type v raw c m cased in
    (
      raw,
      at_o,
      ap (lookup "type") f ∙ sym at_type,
      ap (lookup "v") f,
      ap (λ x. is_acceptable v (type_of x)) f ∙ acceptable v type c known u l,
    )

module _ {ℓ} {Line : Type ℓ} (parse : Line → Option Value) where
  -- A line is decoded to a message only if it is an object whose `type` is declared and the
  -- type of the message, and whose version (0 if `v` is no number) is the version of the message, is
  -- at most 2, and is 0 only for `approval_request` and `approval_decision`.
  pub decode-accepts :
      (line : Line) (m : Fields)
      → decode_control_message parse line ≡ ok m
      → (raw : Fields) × (parse line ≡ some (obj raw))
        × (lookup "type" m ≡ lookup "type" raw)
        × (lookup "v" m ≡ some (version_of (lookup "v" raw)))
        × (is_acceptable (version_of (lookup "v" raw)) (type_of m) ≡ true)
  unfolding decode_control_message
  decode-accepts line m h = value-acceptable (parse line) m h
