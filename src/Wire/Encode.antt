-- ===== src/Wire/Encode.antt =====
-- src/protocol/encode.ts. `JSON.stringify` is a parameter, with a line's text of any type.
use tailii_host.Prelude.{
  String, ◌||◌, List, [], ◌∷◌, Option, none, some, ◌==◌, ==_iff, nat_eq, string_eq, if◌then◌else◌,
  or_option, ◌≡◌, refl, arith,
}
use tailii_host.Prelude.Text.{has_name}
use tailii_host.Wire.Values.{Value, str, obj, Fields, end, field, lookup, canonicalize}
use tailii_host.Wire.Decode.{is_legacy}

-- The entries under other names.
unfoldable pub without : List String → Fields → Fields
without names end = end
without names (field k v fs) =
    let rest = without names fs in if has_name k names then rest else field k v rest

-- `out[key] = value`.
unfoldable pub set_field : String → Value → Fields → Fields
set_field key v end = field key v end
set_field key v (field k w fs) =
    let rest = set_field key v fs in if k == key then field k v fs else field k w rest

-- `if (from[key] !== undefined) out[key] = from[key]`. Where the source sets a required property
-- without the test, it is there in every message.
abbrev pub put : String → Option Value → Fields → Fields
put key none out = out
put key (some v) out = set_field key v out

unfoldable pub copies : List String → Fields → Fields → Fields
copies [] from out = out
copies (k ∷ ks) from out = copies ks from (put k (lookup k from) out)

-- An object's own property that is an object.
abbrev pub inner_of : Option Value → Fields
inner_of (some (obj fs)) = fs
inner_of _ = end

-- The difference of an activity, its properties copied to a new object.
abbrev pub copied_diff : Option Value → Option Value
copied_diff none = none
copied_diff (some (obj diff)) = some (
    obj (
      copies ("oldStringTruncated" ∷ "newStringTruncated" ∷ "oldString" ∷ "newString" ∷ []) diff
        end))
copied_diff (some v) = some v

-- A text and its flag, both left out if there is no text.
abbrev pub with_flag : String → String → Option Value → Fields → Fields → Fields
with_flag text flag none activity out = out
with_flag text flag (some v) activity out = put flag (lookup flag activity) (set_field text v out)

-- The properties of an activity, put into the message's own.
unfoldable pub flatten_activity : Fields → Fields → Fields
flatten_activity activity out =
    let counted =
      copies ("id" ∷ "name" ∷ "label" ∷ "file" ∷ "addedLines" ∷ "removedLines" ∷ []) activity out in
    let diffed = put "diff" (copied_diff (lookup "diff" activity)) counted in
    let commanded =
      with_flag "command" "commandTruncated" (lookup "command" activity) activity diffed in
    let described =
      with_flag "description" "descriptionTruncated" (lookup "description" activity) activity
        commanded in
    copies ("todos" ∷ "files" ∷ "url" ∷ "denial" ∷ "outcome" ∷ []) activity described

abbrev pub node_properties : List String
node_properties =
    "agentType" ∷ "currentActivity" ∷ "depth" ∷ "label" ∷ "model" ∷ "effort" ∷ "nodeId"
    ∷ "parentNodeId" ∷ "status" ∷ "toolUseId" ∷ "ts" ∷ "kind" ∷ []

-- `out["v"]`, which a message of version 0 does not have.
unfoldable pub with_version : Option Value → Fields → Fields
with_version none out = out
with_version (some v) out = if is_legacy v then out else set_field "v" v out

-- What is put into the message's own properties, for the three types that carry an object.
unfoldable pub with_inner : Option Value → Fields → Fields → Fields
with_inner (some (str type)) m out =
    if type == "tool_activity" || type == "session_tool_activity"
    then flatten_activity (inner_of (lookup "activity" m)) out
    else if type == "subagent_node"
    then copies node_properties (inner_of (lookup "node" m)) out
    else out
with_inner _ m out = out

-- `wireObject`.
unfoldable pub wire_object : Fields → Fields
wire_object m =
    with_inner (lookup "type" m) m
      (with_version (lookup "v" m) (without ("v" ∷ "activity" ∷ "node" ∷ []) m))

module _ {ℓ} {Line : Type ℓ} (stringify : Value → Line) where
  -- `encodeControlMessage`.
  unfoldable pub encode_control_message : Fields → Line
  encode_control_message m = stringify (canonicalize (obj (wire_object m)))

pub lookup-without :
    (k : String) (names : List String) (fs : Fields)
    → lookup k (without names fs) ≡ (if has_name k names then none else lookup k fs)
unfolding without
lookup-without k names end = ground arith
lookup-without k names (field j v fs) =
    ground (arith, lookup-without k names fs, ==_iff {A = String} j k)

pub lookup-set_field :
    (j k : String) (v : Value) (fs : Fields)
    → lookup j (set_field k v fs) ≡ (if k == j then some v else lookup j fs)
unfolding set_field
lookup-set_field j k v end = ground (arith, ==_iff {A = String} k j)
lookup-set_field j k v (field i w fs) = ground (
  arith,
  lookup-set_field j k v fs,
  ==_iff {A = String} i k,
  ==_iff {A = String} i j,
  ==_iff {A = String} k j,
)

pub lookup-put :
    (j k : String) (o : Option Value) (out : Fields)
    → lookup j (put k o out) ≡ (if k == j then or_option o (lookup j out) else lookup j out)
lookup-put j k none out = ground arith
lookup-put j k (some v) out = ground (arith, lookup-set_field j k v out)

-- A copied property is what it was in the source, or else what it was before.
pub lookup-copies :
    (j : String) (ks : List String) (from out : Fields)
    → lookup j (copies ks from out)
      ≡ (if has_name j ks then or_option (lookup j from) (lookup j out) else lookup j out)
unfolding copies
lookup-copies j [] from out = refl
lookup-copies j (k ∷ ks) from out = ground (
  arith,
  lookup-copies j ks from (put k (lookup k from) out),
  lookup-put j k (lookup k from) out,
  ==_iff {A = String} k j,
)
