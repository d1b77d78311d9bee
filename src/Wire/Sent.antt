-- ===== src/Wire/Sent.antt =====
-- What the properties of an encoded message stand for, and that they are decoded as they were, for the
-- types whose message carries no object of its own.
use mathlib.Core.Option
use tailii_host.Prelude.{
  String, Bool, true, false, not, ◌&&◌, ◌||◌, List, [], ◌∷◌, Option, none, some, ◌==◌, ==_iff,
  nat_eq, string_eq, if◌then◌else◌, all, is_some, ◌≡◌, refl, ap, sym, subst, ◌∙◌, arith,
}
use tailii_host.Prelude.Maps.{get, get-all}
use tailii_host.Prelude.Text.{has_name}
use tailii_host.Wire.Values.{
  Value, null, bool, num, real, infinite, str, arr, obj, Fields, end, field, lookup, join,
  canonicalize, canonicalize_fields, lookup-canonicalize_fields,
}
use tailii_host.Wire.Shapes.{Entries}
use tailii_host.Wire.Reading.{ok, ok-inversion}
use tailii_host.Wire.Parts.{Part, Encodes, declares, entries_of, distinct, literal, literal-steady}
use tailii_host.Wire.Table.{Case, cases}
use tailii_host.Wire.Decode.{decode_value, nested_literal, message, version_of, is_legacy}
use tailii_host.Wire.Inversion.{
  decode_case-inversion, decode_switch-inversion, decode_typed-inversion, decode_value-inversion,
  reads-again,
}
use tailii_host.Wire.Encode.{
  wire_object, with_version, with_inner, without, lookup-without, lookup-set_field,
}

-- The three types whose messages carry an object of their own.
abbrev pub carries_object : String → Bool
carries_object type =
    type == "tool_activity" || type == "session_tool_activity" || type == "subagent_node"

-- `message.type`.
abbrev pub text_of : Option Value → String
text_of (some (str type)) = type
text_of _ = ""

abbrev pub type_of : Fields → String
type_of m = text_of (lookup "type" m)

is_none : (o : Option (String × List Part)) → is_some o ≡ false → o ≡ none
is_none none h = refl
is_none (some x) h = absurd (cc)

-- No property of the literal has one of these names.
abbrev pub avoids : List String → Entries → Bool
avoids [] es = true
avoids (n ∷ ns) es = not (declares n es) && avoids ns es

-- The literal of a type has distinct names, none of which the encoder or the decoder uses itself.
abbrev fits_encoder : String × Case → Bool
fits_encoder (type, c) =
    distinct c.own
    && avoids ("type" ∷ "v" ∷ "activity" ∷ "node" ∷ []) (entries_of c.own)
    && (carries_object type || not (is_some c.nested))

cases_fit : all fits_encoder cases ≡ true
cases_fit = refl

-- The version that is sent is read as it was.
pub version-again :
    (o : Option Value)
    → version_of
        (Option.map canonicalize (if is_legacy (version_of o) then none else some (version_of o)))
      ≡ version_of o
unfolding canonicalize
version-again none = refl
version-again (some (num n)) = ground arith
version-again (some null) = refl
version-again (some (bool b)) = refl
version-again (some (real s n d)) = refl
version-again (some (infinite s)) = refl
version-again (some (str s)) = refl
version-again (some (arr vs)) = refl
version-again (some (obj fs)) = refl

-- What the properties of an encoded message stand for, for a message without an object of its own.
module _ (type : String) (v : Value) (own : Fields) where
  abbrev sent : Fields
  sent = message type v own

  abbrev kept : Fields
  kept = without ("v" ∷ "activity" ∷ "node" ∷ []) sent

  wire_object-plain : carries_object type ≡ false → wire_object sent ≡ with_version (some v) kept
  unfolding wire_object with_inner
  wire_object-plain p = ground arith

  lookup-with_version :
      (k : String)
      → lookup k (with_version (some v) kept)
        ≡ (if is_legacy v then lookup k kept else if "v" == k then some v else lookup k kept)
  unfolding with_version
  lookup-with_version k = ground (arith, lookup-set_field k "v" v kept)

  -- Every other property of the message is sent.
  lookup-sent :
      (k : String)
      → carries_object type ≡ false
      → has_name k ("v" ∷ "activity" ∷ "node" ∷ []) ≡ false
      → lookup k (wire_object sent) ≡ lookup k sent
  lookup-sent k p n =
      ap (lookup k) (wire_object-plain p)
      ∙ lookup-with_version k
      ∙ ground (arith, n, lookup-without k ("v" ∷ "activity" ∷ "node" ∷ []) sent)

  lookup-sent_version :
      carries_object type ≡ false
      → lookup "v" (wire_object sent) ≡ (if is_legacy v then none else some v)
  lookup-sent_version p =
      ap (lookup "v") (wire_object-plain p)
      ∙ lookup-with_version "v"
      ∙ ground (arith, lookup-without "v" ("v" ∷ "activity" ∷ "node" ∷ []) sent)

pub avoids-has_name :
    (k : String) (ns : List String) (es : Entries)
    → avoids ns es ≡ true
    → declares k es ≡ true
    → has_name k ns ≡ false
avoids-has_name k [] es a h = refl
avoids-has_name k (n ∷ ns) es a h = ground (arith, avoids-has_name k ns es, ==_iff {A = String} n k)

-- The parts of a message without an object of its own are read again as they were.
module _ (type : String) (v : Value) (raw own : Fields) (c : Case) where
  abbrev again : Fields
  again = canonicalize_fields (wire_object (sent type v own))

  lookup-again :
      (k : String)
      → lookup k again ≡ Option.map canonicalize (lookup k (wire_object (sent type v own)))
  lookup-again k = lookup-canonicalize_fields k (wire_object (sent type v own))

  own-again :
      carries_object type ≡ false
      → fits_encoder (type, c) ≡ true
      → literal c.own raw ≡ ok own
      → literal c.own again ≡ ok own
  unfolding Encodes
  own-again p fits e = literal-steady c.own raw own again (ground arith) e (λ k is.
      let away =
        avoids-has_name k ("type" ∷ "v" ∷ "activity" ∷ "node" ∷ []) (entries_of c.own)
          (ground arith) is in
      lookup-again k
      ∙ ap (Option.map canonicalize)
          (lookup-sent type v own k p (ground (arith, away)) ∙ ground (arith, away)))

  type-again : carries_object type ≡ false → lookup "type" again ≡ some (str type)
  unfolding canonicalize
  type-again p =
      lookup-again "type" ∙ ap (Option.map canonicalize) (lookup-sent type v own "type" p refl)

  version-sent :
      carries_object type ≡ false
      → lookup "v" again ≡ Option.map canonicalize (if is_legacy v then none else some v)
  version-sent p =
      lookup-again "v" ∙ ap (Option.map canonicalize) (lookup-sent_version type v own p)

join-end : (fs : Fields) → join fs end ≡ fs
join-end end = refl
join-end (field k v fs) = ap (field k v) (join-end fs)

nested-plain :
    (type : String) (c : Case) (raw inner : Fields)
    → carries_object type ≡ false
    → fits_encoder (type, c) ≡ true
    → nested_literal c.nested raw ≡ ok inner
    → (c.nested ≡ none) × (inner ≡ end)
nested-plain type c raw inner p fits e =
    let plain = is_none c.nested (ground arith) in
    (plain, sym (ok-inversion (ap (λ n. nested_literal n raw) (sym plain) ∙ e)))

-- A message without an object of its own, encoded and decoded.
pub message-again :
    (o : Option Value) (m : Fields)
    → decode_value o ≡ ok m
    → carries_object (type_of m) ≡ false
    → decode_value (some (obj (canonicalize_fields (wire_object m)))) ≡ ok m
message-again o m h p =
    let (raw, type, at_o, at_type, typed) = decode_value-inversion o m h in
    let v = version_of (lookup "v" raw) in
    let (u, l, switched) = decode_typed-inversion type v raw m typed in
    let (c, known, cased) = decode_switch-inversion type v raw (get type cases) m switched in
    let (own, inner, e, e2, f) = decode_case-inversion type v raw c m cased in
    let fits = get-all fits_encoder type c cases cases_fit known in
    let q = ap (λ x. carries_object (type_of x)) (sym f) ∙ p in
    let (none_nested, ends) = nested-plain type c raw inner q fits e2 in
    let whole =
      f ∙ ap (λ x. message type v (join own x)) ends ∙ ap (message type v) (join-end own) in
    subst (λ x. decode_value (some (obj (canonicalize_fields (wire_object x)))) ≡ ok x) (sym whole)
      (reads-again type v (again type v raw own c) c own end (type-again type v raw own c q)
          (ap version_of (version-sent type v raw own c q) ∙ version-again (lookup "v" raw)) u l
          known (own-again type v raw own c q fits e)
          (ap (λ n. nested_literal n (again type v raw own c)) none_nested)
        ∙ ap (λ x. ok (message type v x)) (join-end own))
