-- ===== src/Wire/RoundTrip.antt =====
-- What `decodeControlMessage` gives, `encodeControlMessage` keeps.
use tailii_host.Prelude.{
  String, Bool, true, false, ◌||◌, [], ◌∷◌, Option, none, some, ◌==◌, string_eq, ◌≡◌, refl, ap, ◌∙◌,
  arith, Bool-cases, inl, inr,
}
use tailii_host.Wire.Values.{
  Value, str, obj, Fields, lookup, canonicalize, canonicalize_fields, is_finite, has_finite,
}
use tailii_host.Wire.Reading.{ok}
use tailii_host.Wire.Decode.{decode_control_message, decode_value, is_legacy}
use tailii_host.Wire.Encode.{
  encode_control_message, wire_object, with_version, with_inner, without, inner_of, node_properties,
}
use tailii_host.Wire.Finite.{canonicalize-finite, without-finite, set_field-finite, lookup-finite}
use tailii_host.Wire.Sent.{message-again, type_of, text_of}
use tailii_host.Wire.Nodes.{node_value-again, copies-finite}

-- The two types whose messages carry an activity.
abbrev pub carries_activity : String → Bool
carries_activity type = type == "tool_activity" || type == "session_tool_activity"

inner_of-finite :
    (k : String) (o : Option Value) (m : Fields)
    → lookup k m ≡ o
    → has_finite m ≡ true
    → has_finite (inner_of o) ≡ true
unfolding is_finite
inner_of-finite k (some (obj fs)) m e h = lookup-finite k m (obj fs) h e
inner_of-finite k o m e h = refl

with_inner-finite :
    (o : Option Value) (m out : Fields)
    → carries_activity (text_of o) ≡ false
    → has_finite m ≡ true
    → has_finite out ≡ true
    → has_finite (with_inner o m out) ≡ true
unfolding with_inner
with_inner-finite (some (str type)) m out p h g = elim (Bool-cases (type == "subagent_node")) [
  | inl node ↦
      rw (p, node)
        (copies-finite node_properties (inner_of (lookup "node" m)) out
          (inner_of-finite "node" (lookup "node" m) m refl h) g)
  | inr other ↦ rw (p, other) g
]
with_inner-finite o m out p h g = g

with_version-finite :
    (o : Option Value) (m out : Fields)
    → has_finite m ≡ true
    → lookup "v" m ≡ o
    → has_finite out ≡ true
    → has_finite (with_version o out) ≡ true
unfolding with_version
with_version-finite none m out h e g = g
with_version-finite (some v) m out h e g = elim (Bool-cases (is_legacy v)) [
  | inl legacy ↦ rw legacy g
  | inr newer ↦ rw newer (set_field-finite "v" v out (lookup-finite "v" m v h e) g)
]

encoded-finite :
    (m : Fields)
    → carries_activity (type_of m) ≡ false
    → has_finite m ≡ true
    → is_finite (canonicalize (obj (wire_object m))) ≡ true
unfolding wire_object is_finite
encoded-finite m p h =
    let out = with_version (lookup "v" m) (without ("v" ∷ "activity" ∷ "node" ∷ []) m) in
    canonicalize-finite (obj (wire_object m)) (
      with_inner-finite (lookup "type" m) m out p h (
        with_version-finite (lookup "v" m) m _ h refl
          (without-finite ("v" ∷ "activity" ∷ "node" ∷ []) m h)))

any_value-again :
    (o : Option Value) (m : Fields)
    → decode_value o ≡ ok m
    → carries_activity (type_of m) ≡ false
    → decode_value (some (obj (canonicalize_fields (wire_object m)))) ≡ ok m
any_value-again o m h p = elim (Bool-cases (type_of m == "subagent_node")) [
  | inl node ↦ node_value-again o m h node
  | inr other ↦ message-again o m h (ground (arith, p, other))
]

module _ {ℓ} {Line : Type ℓ} (parse : Line → Option Value) (stringify : Value → Line) where
  -- A message that was decoded, of any type but `tool_activity` and `session_tool_activity`, and with
  -- finite numbers only, is encoded to a line that is decoded to the same message, if `JSON.parse` gives
  -- back every finite value that `JSON.stringify` writes.
  pub decode-encode :
      ((v : Value) → is_finite v ≡ true → parse (stringify v) ≡ some v)
      → (line : Line) (m : Fields) → decode_control_message parse line ≡ ok m
      → carries_activity (type_of m) ≡ false
      → has_finite m ≡ true
      → decode_control_message parse (encode_control_message stringify m) ≡ ok m
  unfolding decode_control_message encode_control_message canonicalize
  decode-encode parse-stringify line m h p finite =
      ap decode_value (parse-stringify _ (encoded-finite m p finite))
      ∙ any_value-again (parse line) m h p
