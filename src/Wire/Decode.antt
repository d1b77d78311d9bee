-- ===== src/Wire/Decode.antt =====
-- `decodeControlMessage` of src/protocol/decode.ts. The text of a line is of any type, and
-- `JSON.parse` a parameter: `none` stands for the exception that it throws.
use tailii_host.Prelude.{
  ℕ, String, Bool, false, not, ◌&&◌, ◌||◌, List, Option, none, some, ◌==◌, nat_eq, string_eq,
  if◌then◌else◌, ltb, leb,
}
use tailii_host.Prelude.Maps.{get}
use tailii_host.Wire.Values.{Value, num, real, infinite, str, obj, Fields, end, field, lookup, join}
use tailii_host.Wire.Reading.{
  Result, ok, fail, ◌>>=◌, invalid_json, missing_type, unknown_type, unsupported_version,
  legacy_unsupported_type,
}
use tailii_host.Wire.Parts.{Part, literal}
use tailii_host.Wire.Table.{Case, cases}

-- `PROTOCOL_MAX_SUPPORTED`.
abbrev pub protocol_max_supported : ℕ
protocol_max_supported = 2

-- `typeof raw["v"] === "number" ? raw["v"] : PROTOCOL_LEGACY`.
abbrev pub version_of : Option Value → Value
version_of (some (num n)) = num n
version_of (some (real s n d)) = real s n d
version_of (some (infinite s)) = infinite s
version_of _ = num 0

-- `v > PROTOCOL_MAX_SUPPORTED`.
abbrev pub is_unsupported : Value → Bool
is_unsupported (num n) = ltb protocol_max_supported n
is_unsupported (real negative n decimals) = not negative && leb protocol_max_supported n
is_unsupported (infinite negative) = not negative
is_unsupported _ = false

-- `v === PROTOCOL_LEGACY`.
abbrev pub is_legacy : Value → Bool
is_legacy (num n) = n == 0
is_legacy _ = false

-- The two types that had no version.
abbrev pub is_approval : String → Bool
is_approval type = type == "approval_request" || type == "approval_decision"

abbrev pub nested_literal : Option (String × List Part) → Fields → Result Fields
nested_literal none raw = ok end
nested_literal (some (name, parts)) raw =
    literal parts raw >>= λ inner. ok (field name (obj inner) end)

abbrev pub message : String → Value → Fields → Fields
message type v entries = field "type" (str type) (field "v" v entries)

-- The object of a `case`: `{ type, v, … }`.
unfoldable pub decode_case : String → Value → Fields → Case → Result Fields
decode_case type v raw c = literal c.own raw >>= λ own.
    nested_literal c.nested raw >>= λ inner. ok (message type v (join own inner))

unfoldable pub decode_switch : String → Value → Fields → Option Case → Result Fields
decode_switch type v raw none = fail unknown_type
decode_switch type v raw (some c) = decode_case type v raw c

-- The checks of the version, then the `switch`.
unfoldable pub decode_typed : String → Value → Fields → Result Fields
decode_typed type v raw =
    let switched = decode_switch type v raw (get type cases) in
    if is_unsupported v
    then fail unsupported_version
    else if is_legacy v && not (is_approval type)
    then fail legacy_unsupported_type
    else switched

unfoldable pub decode_type : Option Value → Fields → Result Fields
decode_type (some (str type)) raw = decode_typed type (version_of (lookup "v" raw)) raw
decode_type _ raw = fail missing_type

unfoldable pub decode_value : Option Value → Result Fields
decode_value (some (obj raw)) = decode_type (lookup "type" raw) raw
decode_value _ = fail invalid_json

module _ {ℓ} {Line : Type ℓ} (parse : Line → Option Value) where
  -- `decodeControlMessage`.
  unfoldable pub decode_control_message : Line → Result Fields
  decode_control_message line = decode_value (parse line)
