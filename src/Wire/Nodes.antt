-- ===== src/Wire/Nodes.antt =====
-- The messages of type `subagent_node`: the encoder puts the properties of the node into the message, and
-- the decoder takes them out again.
use mathlib.Core.Option
use tailii_host.Prelude.{
  String, Bool, true, false, not, ◌&&◌, ◌||◌, List, [], ◌∷◌, Option, none, some, or_option, ◌==◌,
  string_eq, if◌then◌else◌, ◌≡◌, refl, ap, sym, ◌∙◌, subst, arith, Bool-cases, inl, inr,
}
use tailii_host.Prelude.Maps.{get}
use tailii_host.Prelude.Text.{has_name}
use tailii_host.Wire.Values.{
  Value, str, obj, Fields, end, field, lookup, join, canonicalize, canonicalize_fields,
  lookup-canonicalize_fields, has_finite,
}
use tailii_host.Wire.Shapes.{Entries, no_entries, entry}
use tailii_host.Wire.Reading.{ok, ok-inversion, ◌>>=◌}
use tailii_host.Wire.Parts.{Encodes, declares, entries_of, literal, literal-steady, >>=-inversion}
use tailii_host.Wire.Table.{Case, cases}
use tailii_host.Wire.Messages.Activity.{subagent_node_info}
use tailii_host.Wire.Decode.{
  decode_value, nested_literal, message, version_of, is_legacy, is_approval,
}
use tailii_host.Wire.Encode.{
  wire_object, with_version, with_inner, without, copies, node_properties, lookup-set_field,
  lookup-copies, put,
}
use tailii_host.Wire.Finite.{set_field-finite, lookup-finite}
use tailii_host.Wire.Inversion.{
  decode_case-inversion, decode_switch-inversion, decode_typed-inversion, decode_value-inversion,
  reads-again,
}
use tailii_host.Wire.Properties.{same_text, some_inversion}
use tailii_host.Wire.Sent.{type_of, version-again}

abbrev node_case : Case
node_case = record { own = []; nested = some ("node", subagent_node_info) }

-- Every property of a node is one that the encoder copies, and none is the message's own.
abbrev copied : Entries → Bool
copied no_entries = true
copied (entry k optional t es) =
    (has_name k node_properties && (not ("type" == k) && not ("v" == k))) && copied es

first_holds : (a b : Bool) → (a && b) ≡ true → a ≡ true
first_holds a b h = ground arith

second_holds : (a b : Bool) → (a && b) ≡ true → b ≡ true
second_holds a b h = ground arith

other_holds : (a b : Bool) → (a || b) ≡ true → a ≡ false → b ≡ true
other_holds a b h n = ground arith

copied_name :
    (k : String) (es : Entries)
    → copied es ≡ true
    → declares k es ≡ true
    → (has_name k node_properties && (not ("type" == k) && not ("v" == k))) ≡ true
copied_name k no_entries c h = absurd (cc)
copied_name k (entry j optional t es) c h = elim (Bool-cases (j == k)) [
  | inl e ↦
      subst (λ x. (has_name x node_properties && (not ("type" == x) && not ("v" == x))) ≡ true)
        (same_text j k e)
        (first_holds (has_name j node_properties && (not ("type" == j) && not ("v" == j)))
          (copied es) c)
  | inr e ↦
      copied_name k es (second_holds _ (copied es) c) (other_holds (j == k) (declares k es) h e)
]

picked :
    (h : Bool) (a b : Option Value) → h ≡ true → b ≡ none → (if h then or_option a b else b) ≡ a
picked h none b t n = ground arith
picked h (some a) b t n = ground arith

absent :
    (l s : Bool) (v : Value) (x : Option Value)
    → s ≡ false
    → x ≡ none
    → (if l then x else if s then some v else x) ≡ none
absent l s v x t n = ground arith

either : (l : Bool) (x : Option Value) → (if l then x else x) ≡ x
either true x = refl
either false x = refl

module _ (v : Value) (node : Fields) where
  abbrev node_message : Fields
  node_message = message "subagent_node" v (field "node" (obj node) end)

  abbrev header : Fields
  header = field "type" (str "subagent_node") end

  sent_node : wire_object node_message ≡ copies node_properties node (with_version (some v) header)
  unfolding wire_object with_inner without
  sent_node = refl

  lookup-header :
      (k : String)
      → lookup k (with_version (some v) header)
        ≡ (if is_legacy v then lookup k header else if "v" == k then some v else lookup k header)
  unfolding with_version
  lookup-header k = ground (arith, lookup-set_field k "v" v header)

  lookup-sent_node :
      (k : String)
      → lookup k (wire_object node_message) ≡ (
          if has_name k node_properties
          then or_option (lookup k node) (lookup k (with_version (some v) header))
          else lookup k (with_version (some v) header))
  lookup-sent_node k =
      ap (lookup k) sent_node ∙ lookup-copies k node_properties node (with_version (some v) header)

  abbrev node_again : Fields
  node_again = canonicalize_fields (wire_object node_message)

  property-again :
      (k : String)
      → declares k (entries_of subagent_node_info) ≡ true
      → lookup k node_again ≡ Option.map canonicalize (lookup k node)
  property-again k is =
      let own = copied_name k (entries_of subagent_node_info) refl is in
      let others = not ("type" == k) && not ("v" == k) in
      let not_own = second_holds (has_name k node_properties) others own in
      let not_type = first_holds (not ("type" == k)) (not ("v" == k)) not_own in
      let not_v = second_holds (not ("type" == k)) (not ("v" == k)) not_own in
      lookup-canonicalize_fields k (wire_object node_message)
      ∙ ap (Option.map canonicalize) (
          lookup-sent_node k
          ∙ picked (has_name k node_properties) (lookup k node)
              (lookup k (with_version (some v) header))
              (first_holds (has_name k node_properties) others own)
              (lookup-header k
                ∙ absent (is_legacy v) ("v" == k) v (lookup k header) (ground (arith, not_v))
                    (ground (arith, not_type))))

  type-again_node : lookup "type" node_again ≡ some (str "subagent_node")
  unfolding canonicalize
  type-again_node =
      lookup-canonicalize_fields "type" (wire_object node_message)
      ∙ ap (Option.map canonicalize) (
          lookup-sent_node "type"
          ∙ lookup-header "type"
          ∙ either (is_legacy v) (some (str "subagent_node")))

  version-again_node :
      lookup "v" node_again ≡ Option.map canonicalize (if is_legacy v then none else some v)
  version-again_node =
      lookup-canonicalize_fields "v" (wire_object node_message)
      ∙ ap (Option.map canonicalize) (lookup-sent_node "v" ∙ lookup-header "v")

  nested-again :
      (raw : Fields)
      → literal subagent_node_info raw ≡ ok node
      → nested_literal node_case.nested node_again ≡ ok (field "node" (obj node) end)
  unfolding Encodes
  nested-again raw e =
      ap (λ x. x >>= λ fs. ok (field "node" (obj fs) end))
        (literal-steady subagent_node_info raw node node_again refl e property-again)

-- A node, encoded and decoded.
pub node_value-again :
    (o : Option Value) (m : Fields)
    → decode_value o ≡ ok m
    → (type_of m == "subagent_node") ≡ true
    → decode_value (some (obj (canonicalize_fields (wire_object m)))) ≡ ok m
unfolding get
node_value-again o m h is =
    let (raw, t, at_o, at_type, typed) = decode_value-inversion o m h in
    let v = version_of (lookup "v" raw) in
    let (u, l, switched) = decode_typed-inversion t v raw m typed in
    let (c, found, cased) = decode_switch-inversion t v raw (get t cases) m switched in
    let (own, inner, e, e2, f) = decode_case-inversion t v raw c m cased in
    let same_type =
      same_text t "subagent_node" (ap (λ x. type_of x == "subagent_node") (sym f) ∙ is) in
    let same_case = some_inversion (sym found ∙ ap (λ x. get x cases) same_type) in
    let no_own = ok-inversion (ap (λ x. literal x.own raw) (sym same_case) ∙ e) in
    let (node, e3, g) =
      >>=-inversion (literal subagent_node_info raw) (λ fs. ok (field "node" (obj fs) end)) inner
        (ap (λ x. nested_literal x.nested raw) (sym same_case) ∙ e2) in
    let whole =
      f
      ∙ ap (λ x. message x v (join own inner)) same_type
      ∙ ap (λ x. message "subagent_node" v (join x inner)) (sym no_own)
      ∙ ap (message "subagent_node" v) (sym (ok-inversion g)) in
    subst (λ x. decode_value (some (obj (canonicalize_fields (wire_object x)))) ≡ ok x) (sym whole)
      (reads-again "subagent_node" v (node_again v node) node_case end (field "node" (obj node) end)
        (type-again_node v node)
        (ap version_of (version-again_node v node) ∙ version-again (lookup "v" raw)) u
        (ap (λ x. is_legacy v && not (is_approval x)) (sym same_type) ∙ l) refl refl
        (nested-again v node raw e3))

put-finite :
    (k : String) (o : Option Value) (from out : Fields)
    → lookup k from ≡ o
    → has_finite from ≡ true
    → has_finite out ≡ true
    → has_finite (put k o out) ≡ true
put-finite k none from out e h g = g
put-finite k (some v) from out e h g = set_field-finite k v out (lookup-finite k from v h e) g

pub copies-finite :
    (ks : List String) (from out : Fields)
    → has_finite from ≡ true
    → has_finite out ≡ true
    → has_finite (copies ks from out) ≡ true
unfolding copies
copies-finite [] from out h g = g
copies-finite (k ∷ ks) from out h g =
    copies-finite ks from (put k (lookup k from) out) h
      (put-finite k (lookup k from) from out refl h g)
