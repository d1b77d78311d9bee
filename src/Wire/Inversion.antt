-- ===== src/Wire/Inversion.antt =====
-- What a successful decoding of src/protocol/decode.ts says of the value that was decoded.
use tailii_host.Prelude.{
  String, Bool, true, false, not, ◌&&◌, Option, none, some, nat_eq, string_eq, if◌then◌else◌, ◌≡◌,
  refl, ap, ◌∙◌,
}
use tailii_host.Prelude.Maps.{get}
use tailii_host.Wire.Values.{
  Value, null, bool, num, real, infinite, str, arr, obj, Fields, lookup, join,
}
use tailii_host.Wire.Reading.{Result, ok, fail, ◌>>=◌, unsupported_version, legacy_unsupported_type}
use tailii_host.Wire.Parts.{literal, >>=-inversion}
use tailii_host.Wire.Table.{Case, cases}
use tailii_host.Wire.Decode.{
  decode_value, decode_type, decode_typed, decode_switch, decode_case, nested_literal, message,
  version_of, is_legacy, is_unsupported, is_approval,
}

pub decode_case-inversion :
    (type : String) (v : Value) (raw : Fields) (c : Case) (m : Fields)
    → decode_case type v raw c ≡ ok m
    → (own inner : Fields) × (literal c.own raw ≡ ok own)
      × (nested_literal c.nested raw ≡ ok inner)
      × (m ≡ message type v (join own inner))
unfolding decode_case
decode_case-inversion type v raw c m h =
    let (own, e, h2) = >>=-inversion (literal c.own raw) _ m h in
    let (inner, e2, h3) = >>=-inversion (nested_literal c.nested raw) _ m h2 in
    (own, inner, e, e2, cc)

pub decode_switch-inversion :
    (type : String) (v : Value) (raw : Fields) (o : Option Case) (m : Fields)
    → decode_switch type v raw o ≡ ok m
    → (c : Case) × (o ≡ some c) × (decode_case type v raw c ≡ ok m)
unfolding decode_switch
decode_switch-inversion type v raw none m h = absurd (cc)
decode_switch-inversion type v raw (some c) m h = (c, refl, h)

passed :
    (a b : Bool) (r : Result Fields) (m : Fields)
    → (if a then fail unsupported_version else if b then fail legacy_unsupported_type else r) ≡ ok m
    → (a ≡ false) × (b ≡ false) × (r ≡ ok m)
passed true b r m h = absurd (cc)
passed false true r m h = absurd (cc)
passed false false r m h = (refl, refl, h)

-- A message is decoded only of a version and a type that are known.
pub decode_typed-inversion :
    (type : String) (v : Value) (raw m : Fields)
    → decode_typed type v raw ≡ ok m
    → (is_unsupported v ≡ false)
      × ((is_legacy v && not (is_approval type)) ≡ false)
      × (decode_switch type v raw (get type cases) ≡ ok m)
unfolding decode_typed
decode_typed-inversion type v raw m h =
    passed (is_unsupported v) (is_legacy v && not (is_approval type)) _ m h

pub decode_typed-eq :
    (type : String) (v : Value) (raw : Fields)
    → is_unsupported v ≡ false
    → (is_legacy v && not (is_approval type)) ≡ false
    → decode_typed type v raw ≡ decode_switch type v raw (get type cases)
unfolding decode_typed
decode_typed-eq type v raw e f = rw (e, f) refl

pub decode_type-inversion :
    (o : Option Value) (raw m : Fields)
    → decode_type o raw ≡ ok m
    → (type : String) × (o ≡ some (str type))
      × (decode_typed type (version_of (lookup "v" raw)) raw ≡ ok m)
unfolding decode_type
decode_type-inversion (some (str type)) raw m h = (type, refl, h)
decode_type-inversion none raw m h = absurd (cc)
decode_type-inversion (some null) raw m h = absurd (cc)
decode_type-inversion (some (bool b)) raw m h = absurd (cc)
decode_type-inversion (some (num n)) raw m h = absurd (cc)
decode_type-inversion (some (real s n d)) raw m h = absurd (cc)
decode_type-inversion (some (infinite s)) raw m h = absurd (cc)
decode_type-inversion (some (arr vs)) raw m h = absurd (cc)
decode_type-inversion (some (obj fs)) raw m h = absurd (cc)

pub decode_value-inversion :
    (o : Option Value) (m : Fields)
    → decode_value o ≡ ok m
    → (raw : Fields) × (type : String) × (o ≡ some (obj raw))
      × (lookup "type" raw ≡ some (str type))
      × (decode_typed type (version_of (lookup "v" raw)) raw ≡ ok m)
unfolding decode_value
decode_value-inversion none m h = absurd (cc)
decode_value-inversion (some (obj raw)) m h =
    let (type, e, f) = decode_type-inversion (lookup "type" raw) raw m h in (raw, type, refl, e, f)
decode_value-inversion (some null) m h = absurd (cc)
decode_value-inversion (some (bool b)) m h = absurd (cc)
decode_value-inversion (some (num n)) m h = absurd (cc)
decode_value-inversion (some (real s n d)) m h = absurd (cc)
decode_value-inversion (some (infinite s)) m h = absurd (cc)
decode_value-inversion (some (str s)) m h = absurd (cc)
decode_value-inversion (some (arr vs)) m h = absurd (cc)

-- A value with the type, the version and the literals of a message is decoded to that message.
pub reads-again :
    (type : String) (v : Value) (raw : Fields) (c : Case) (own inner : Fields)
    → lookup "type" raw ≡ some (str type)
    → version_of (lookup "v" raw) ≡ v
    → is_unsupported v ≡ false
    → (is_legacy v && not (is_approval type)) ≡ false
    → get type cases ≡ some c
    → literal c.own raw ≡ ok own
    → nested_literal c.nested raw ≡ ok inner
    → decode_value (some (obj raw)) ≡ ok (message type v (join own inner))
unfolding decode_value decode_type decode_switch decode_case
reads-again type v raw c own inner t w u l known e e2 =
    ap (λ x. decode_type x raw) t
    ∙ ap (λ x. decode_typed type x raw) w
    ∙ decode_typed-eq type v raw u l
    ∙ ap (decode_switch type v raw) known
    ∙ ap (λ x. x >>= λ fs. nested_literal c.nested raw >>= λ gs. ok (message type v (join fs gs))) e
    ∙ ap (λ x. x >>= λ gs. ok (message type v (join own gs))) e2
