-- ===== src/Tests/Wire.antt =====
-- Runs of the protocol's decoder and encoder, with a line that is its own value.
use tailii_host.Prelude.{◌≡◌, refl, true, false, Option, some}
use tailii_host.Prelude.Maps.{get}
use tailii_host.Wire.Values.{
  Value, bool, num, real, str, obj, Fields, end, field, lookup, has_finite,
}
use tailii_host.Wire.Reading.{ok, fail, unsupported_version, missing_field}
use tailii_host.Wire.Decode.{
  version_of, decode_control_message, decode_value, decode_type, decode_typed, decode_switch,
  decode_case,
}
use tailii_host.Wire.Encode.{encode_control_message}
use tailii_host.Wire.Typed.{decode-typed, is_control_message}
use tailii_host.Wire.Accepted.{decode-accepts, is_acceptable}
use tailii_host.Wire.Refused.{decode-refuses, explains_line}
use tailii_host.Wire.Bounded.{decode-bounded, is_bounded}
use tailii_host.Wire.Sent.{type_of}
use tailii_host.Wire.RoundTrip.{decode-encode}

abbrev read_back : Value → Option Value
read_back v = some v

abbrev written : Value → Value
written v = v

-- A request to reopen a conversation, with a property that the decoder does not know.
abbrev reattach_line : Value
reattach_line = obj (
    field "v" (num 2) (
      field "type" (str "session_reattach") (
        field "name" (str "work")
          (field "other" (bool true) (field "id" (str "r1") (field "newerThanMs" (num 17) end))))))

abbrev reattach : Fields
reattach = field "type" (str "session_reattach") (
    field "v" (num 2)
      (field "id" (str "r1") (field "name" (str "work") (field "newerThanMs" (num 17) end))))

reattach_decoded : decode_control_message read_back reattach_line ≡ ok reattach
unfolding decode_control_message decode_value decode_type decode_typed decode_switch decode_case get
reattach_decoded = refl

reattach_finite : has_finite reattach ≡ true
unfolding has_finite
reattach_finite = refl

decode-encode_example :
    decode_control_message read_back (encode_control_message written reattach) ≡ ok reattach
decode-encode_example =
    decode-encode read_back written (λ v h. refl) reattach_line reattach reattach_decoded refl
      reattach_finite

decode-typed_example : is_control_message reattach ≡ true
decode-typed_example = decode-typed read_back reattach_line reattach reattach_decoded

decode-accepts_example :
    (raw : Fields) × (read_back reattach_line ≡ some (obj raw))
    × (lookup "type" reattach ≡ lookup "type" raw)
    × (lookup "v" reattach ≡ some (version_of (lookup "v" raw)))
    × (is_acceptable (version_of (lookup "v" raw)) (type_of reattach) ≡ true)
decode-accepts_example = decode-accepts read_back reattach_line reattach reattach_decoded

-- A stopped server, without the port.
stop_without_port :
    decode_control_message read_back (
      obj (
        field "type"
          (str "serve_stop_request")
          (field "v" (num 1) (field "id" (str "a") (field "pid" (num 5) end)))))
    ≡ fail missing_field
unfolding decode_control_message decode_value decode_type decode_typed decode_switch decode_case get
stop_without_port = refl

-- A message of the version 2.5.
abbrev later_line : Value
later_line = obj (field "type" (str "serve_list_request") (field "v" (real false 2 "5") end))

later_version : decode_control_message read_back later_line ≡ fail unsupported_version
unfolding decode_control_message decode_value decode_type decode_typed get
later_version = refl

-- A page of 1000 lines, of which 200 are read.
abbrev page_line : Value
page_line = obj (
    field "type" (str "history_page_request") (
      field "v" (num 2)
        (field "id" (str "h") (field "name" (str "work") (field "limit" (num 1000) end)))))

abbrev page : Fields
page = field "type" (str "history_page_request") (
    field "v" (num 2)
      (field "id" (str "h") (field "name" (str "work") (field "limit" (num 200) end))))

page_decoded : decode_control_message read_back page_line ≡ ok page
unfolding decode_control_message decode_value decode_type decode_typed decode_switch decode_case get
page_decoded = refl

decode-bounded_example : is_bounded page ≡ true
decode-bounded_example = decode-bounded read_back page_line page page_decoded

decode-refuses_example : explains_line unsupported_version (read_back later_line) ≡ true
decode-refuses_example = decode-refuses read_back later_line unsupported_version later_version
