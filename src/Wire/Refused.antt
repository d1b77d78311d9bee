-- ===== src/Wire/Refused.antt =====
-- The reasons for which src/protocol/decode.ts throws a `ProtocolDecodeError`.
use tailii_host.Prelude.{
  String, Bool, true, false, not, ◌&&◌, ◌||◌, List, Option, none, some, is_some, string_eq, ◌≡◌, ap,
  sym, arith, all, ◌==◌, refl, subst, if◌then◌else◌, Option-cases, inl, inr,
}
use tailii_host.Prelude.Maps.{get, get-all}
use tailii_host.Wire.Values.{Value, str, obj, Fields, lookup}
use tailii_host.Wire.Reading.{
  Reason, fail-inversion, Result, fail, invalid_json, missing_type, unknown_type,
  unsupported_version, legacy_unsupported_type, missing_field,
}
use tailii_host.Wire.Parts.{Part, literal-refuses}
use tailii_host.Wire.Table.{Case, cases}
use tailii_host.Wire.Types.Union.{control_message}
use tailii_host.Wire.Decode.{
  decode_control_message, decode_value, decode_type, decode_typed, decode_switch, decode_case,
  nested_literal, version_of, is_unsupported, is_legacy, is_approval,
}
use tailii_host.Wire.Accepted.{is_declared_type, is_at_most_two, is_zero, is_acceptable, acceptable}

-- What a reason says of a version and a type.
abbrev explains : Reason → Value → String → Bool
explains unsupported_version v type = not (is_at_most_two v)
explains legacy_unsupported_type v type =
    is_zero v && not (type == "approval_request" || type == "approval_decision")
explains unknown_type v type = not (is_declared_type type)
explains missing_field v type = is_acceptable v type
explains _ v type = false

abbrev is_invalid_json : Reason → Bool
is_invalid_json invalid_json = true
is_invalid_json _ = false

abbrev is_missing_type : Reason → Bool
is_missing_type missing_type = true
is_missing_type _ = false

abbrev explains_object : Reason → Option Value → Value → Bool
explains_object r (some (str type)) v = explains r v type
explains_object r _ v = is_missing_type r

-- What a reason says of the value of a line.
abbrev pub explains_line : Reason → Option Value → Bool
explains_line r (some (obj raw)) =
    explains_object r (lookup "type" raw) (version_of (lookup "v" raw))
explains_line r _ = is_invalid_json r

unsupported_explained : (v : Value) → is_unsupported v ≡ true → is_at_most_two v ≡ false
unsupported_explained v u = ground arith

legacy_explained : (v : Value) → is_legacy v ≡ true → is_zero v ≡ true
legacy_explained v l = ground arith

union_in_cases : all (λ entry. is_some (get entry.0 cases)) control_message ≡ true
unfolding get
union_in_cases = refl

known_some : (o : Option Case) → o ≡ none → is_some o ≡ false
known_some o n = ap is_some n

undeclared : (type : String) → get type cases ≡ none → is_declared_type type ≡ false
undeclared type n = elim (Option-cases (get type control_message)) [
  | inl e ↦ ap is_some e
  | inr (es, e) ↦ absurd (
      ground (
        arith,
        get-all (λ entry. is_some (get entry.0 cases)) type es control_message union_in_cases e,
        known_some (get type cases) n,
      ))
]

nested-refuses :
    (n : Option (String × List Part)) (raw : Fields) (r : Reason)
    → nested_literal n raw ≡ fail r
    → r ≡ missing_field
nested-refuses none raw r h = absurd (cc)
nested-refuses (some (name, parts)) raw r h = grind (arith, literal-refuses parts raw r)

decode_case-refuses :
    (type : String) (v : Value) (raw : Fields) (c : Case) (r : Reason)
    → decode_case type v raw c ≡ fail r
    → r ≡ missing_field
unfolding decode_case
decode_case-refuses type v raw c r h =
    grind (arith, literal-refuses c.own raw r, nested-refuses c.nested raw r)

switch-refuses :
    (type : String) (v : Value) (raw : Fields) (o : Option Case) (r : Reason)
    → get type cases ≡ o
    → is_unsupported v ≡ false
    → (is_legacy v && not (is_approval type)) ≡ false
    → decode_switch type v raw o ≡ fail r
    → explains r v type ≡ true
unfolding decode_switch
switch-refuses type v raw none r known u l h =
    subst (λ x. explains x v type ≡ true) (fail-inversion h) (ap not (undeclared type known))
switch-refuses type v raw (some c) r known u l h =
    subst (λ x. explains x v type ≡ true) (sym (decode_case-refuses type v raw c r h))
      (acceptable v type c known u l)

checked_first :
    (a b : Bool) (s : Result Fields) (r : Reason) (v : Value) (type : String)
    → (if a then fail unsupported_version else if b then fail legacy_unsupported_type else s)
      ≡ fail r
    → (a ≡ true → is_at_most_two v ≡ false)
    → (b ≡ true → explains legacy_unsupported_type v type ≡ true)
    → (a ≡ false → b ≡ false → s ≡ fail r → explains r v type ≡ true)
    → explains r v type ≡ true
checked_first true b s r v type h f g k =
    subst (λ x. explains x v type ≡ true) (fail-inversion h) (ap not (f refl))
checked_first false true s r v type h f g k =
    subst (λ x. explains x v type ≡ true) (fail-inversion h) (g refl)
checked_first false false s r v type h f g k = k refl refl h

typed-refuses :
    (type : String) (v : Value) (raw : Fields) (r : Reason)
    → decode_typed type v raw ≡ fail r
    → explains r v type ≡ true
unfolding decode_typed
typed-refuses type v raw r h =
    checked_first (is_unsupported v) (is_legacy v && not (is_approval type)) _ r v type h
      (unsupported_explained v) (λ b. ground (arith, b, legacy_explained v))
      (λ u l s. switch-refuses type v raw (get type cases) r refl u l s)

object-refuses :
    (o : Option Value) (raw : Fields) (r : Reason)
    → decode_type o raw ≡ fail r
    → explains_object r o (version_of (lookup "v" raw)) ≡ true
unfolding decode_type
object-refuses (some (str type)) raw r h = typed-refuses type (version_of (lookup "v" raw)) raw r h
object-refuses o raw r h = ap is_missing_type (sym (fail-inversion h))

value-refuses : (o : Option Value) (r : Reason) → decode_value o ≡ fail r → explains_line r o ≡ true
unfolding decode_value
value-refuses (some (obj raw)) r h = object-refuses (lookup "type" raw) raw r h
value-refuses o r h = ap is_invalid_json (sym (fail-inversion h))

module _ {ℓ} {Line : Type ℓ} (parse : Line → Option Value) where
  -- The reason of an error is true of the line: `invalid-json`, that `JSON.parse` throws or gives no
  -- object; `missing-type`, that the object has no text as its `type`; `unsupported-version`, that the
  -- version (0 if `v` is no number) is above 2; `legacy-unsupported-type`, that it is 0 and the type not
  -- one of the two of an approval; `unknown-type`, that no type of the name is declared; and
  -- `missing-field`, that the type is declared, the version at most 2, and 0 only for an approval.
  pub decode-refuses :
      (line : Line) (r : Reason)
      → decode_control_message parse line ≡ fail r
      → explains_line r (parse line) ≡ true
  unfolding decode_control_message
  decode-refuses line r h = value-refuses (parse line) r h
