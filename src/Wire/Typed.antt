-- ===== src/Wire/Typed.antt =====
-- A decoded message has the type that src/protocol/messages.ts declares for it.
use tailii_host.Prelude.{
  String, Bool, true, false, not, ◌&&◌, List, [], ◌∷◌, Option, none, some, ◌==◌, ==_iff, string_eq,
  all, ◌≡◌, refl, ap, sym, ◌∙◌, subst, arith,
}
use tailii_host.Prelude.Maps.{get, get-all}
use tailii_host.Wire.Values.{Value, obj, Fields, end, field, lookup, join, lookup-join}
use tailii_host.Wire.Shapes.{
  number_type, literals, object_type, Entries, no_entries, entry, conforms, conforms_entries,
  is_number,
}
use tailii_host.Wire.Fits.{provides, provides_sound, fits}
use tailii_host.Wire.Reading.{ok, ok-inversion}
use tailii_host.Wire.Parts.{
  Part, declares, both, entries_of, distinct, literal, literal-only, >>=-inversion,
}
use tailii_host.Wire.Objects.{literal-typed, conforms_entries-agree, conforms_entries-both}
use tailii_host.Wire.Table.{Case, cases}
use tailii_host.Wire.Types.Union.{control_message}
use tailii_host.Wire.Decode.{
  decode_control_message, decode_value, nested_literal, message, version_of,
}
use tailii_host.Wire.Inversion.{
  decode_case-inversion, decode_switch-inversion, decode_typed-inversion, decode_value-inversion,
}
use tailii_host.Wire.Sent.{type_of, avoids, avoids-has_name}

-- The type of a message's object: `{ type: "…"; v: number; … }`.
abbrev object_of : String → Entries → Entries
object_of type es = entry "type" false (literals (type ∷ [])) (entry "v" false number_type es)

-- `message: ControlMessage`.
unfoldable pub is_control_message : Fields → Bool
is_control_message m = elim (get (type_of m) control_message) [
  | none ↦ false
  | some es ↦ conforms_entries (object_of (type_of m) es) m
]

-- The type of what stands under one property of the message.
abbrev nested_entries : Option (String × List Part) → Entries
nested_entries none = no_entries
nested_entries (some (name, parts)) = entry name false (object_type (entries_of parts)) no_entries

abbrev nested_fits : Entries → Option (String × List Part) → Bool
nested_fits es none = true
nested_fits es (some (name, parts)) =
    distinct parts && not (declares name es) && not ("type" == name) && not ("v" == name)

abbrev promised : Case → Entries
promised c = both (entries_of c.own) (nested_entries c.nested)

-- The literal of a type has distinct names, and the types that the union declares for them.
abbrev fits_union : String × Case → Bool
fits_union (type, c) =
    distinct c.own
    && avoids ("type" ∷ "v" ∷ []) (entries_of c.own)
    && nested_fits (entries_of c.own) c.nested
    && elim (get type control_message) [ none ↦ false | some es ↦ provides (promised c) es ]

cases_fit_union : all fits_union cases ≡ true
unfolding get fits
cases_fit_union = refl

version-number : (o : Option Value) → is_number (version_of o) ≡ true
version-number none = refl
version-number (some v) = ground arith

lookup-before :
    (k : String) (fs gs : Fields) → lookup k gs ≡ none → lookup k (join fs gs) ≡ lookup k fs
lookup-before k fs gs n = ground (arith, lookup-join k fs gs)

lookup-after :
    (k : String) (fs gs : Fields) → lookup k fs ≡ none → lookup k (join fs gs) ≡ lookup k gs
lookup-after k fs gs n = ground (arith, lookup-join k fs gs)

lookup-single : (k : String) (v : Value) → lookup k (field k v end) ≡ some v
lookup-single k v = ground (arith, ==_iff {A = String} k k)

-- The own properties of a message, and the one that holds an object.
module _ (type : String) (v : Value) (raw own inner : Fields) (ps : List Part) where
  nested-away :
      (n : Option (String × List Part)) (k : String)
      → nested_literal n raw ≡ ok inner
      → nested_fits (entries_of ps) n ≡ true
      → declares k (entries_of ps) ≡ true
      → lookup k inner ≡ none
  nested-away none k e fits is = ap (lookup k) (sym (ok-inversion e))
  nested-away (some (name, parts)) k e fits is =
      let (fs, e2, f) = >>=-inversion (literal parts raw) _ inner e in
      ap (lookup k) (sym (ok-inversion f)) ∙ ground (arith, fits, is, ==_iff {A = String} name k)

  own-typed :
      (n : Option (String × List Part))
      → distinct ps ≡ true
      → avoids ("type" ∷ "v" ∷ []) (entries_of ps) ≡ true
      → nested_fits (entries_of ps) n ≡ true
      → literal ps raw ≡ ok own
      → nested_literal n raw ≡ ok inner
      → conforms_entries (entries_of ps) (message type v (join own inner)) ≡ true
  own-typed n d a fits e e2 =
      conforms_entries-agree (entries_of ps) own (message type v (join own inner))
        (λ k is.
          let away = avoids-has_name k ("type" ∷ "v" ∷ []) (entries_of ps) a is in
          ground (arith, away, lookup-before k own inner (nested-away n k e2 fits is)))
        (literal-typed ps raw own d e)

  nested-typed :
      (n : Option (String × List Part))
      → nested_fits (entries_of ps) n ≡ true
      → literal ps raw ≡ ok own
      → nested_literal n raw ≡ ok inner
      → conforms_entries (nested_entries n) (message type v (join own inner)) ≡ true
  unfolding conforms
  nested-typed none fits e e2 = refl
  nested-typed (some (name, parts)) fits e e2 =
      let (fs, e3, f) = >>=-inversion (literal parts raw) _ inner e2 in
      let absent = literal-only ps raw own name e (ground (arith, fits)) in
      let at_name =
        lookup-after name own inner absent
        ∙ ap (lookup name) (sym (ok-inversion f))
        ∙ lookup-single name (obj fs) in
      ground (arith, fits, at_name, literal-typed parts raw fs (ground (arith, fits)) e3)

object_of-conforms :
    (type : String) (o : Option Value) (es : Entries) (fs : Fields)
    → conforms_entries es (message type (version_of o) fs) ≡ true
    → conforms_entries (object_of type es) (message type (version_of o) fs) ≡ true
unfolding conforms
object_of-conforms type o es fs h = ground (arith, version-number o, ==_iff {A = String} type type)

union-typed :
    (type : String) (o : Option Value) (fs : Fields) (c : Case) (declared : Option Entries)
    → elim declared [ none ↦ false | some es ↦ provides (promised c) es ] ≡ true
    → conforms_entries (promised c) (message type (version_of o) fs) ≡ true
    → elim declared [
      | none ↦ false
      | some es ↦ conforms_entries (object_of type es) (message type (version_of o) fs)
    ]
      ≡ true
union-typed type o fs c none h k = absurd (cc)
union-typed type o fs c (some es) h k =
    object_of-conforms type o es fs (provides_sound es (promised c) _ h k)

fits_inner : (a b c d : Bool) → (a && b && c && d) ≡ true → c ≡ true
fits_inner a b c d h = ground arith

-- Every value of `JSON.parse` that is decoded gives a message of the type that is declared for it.
value-typed : (o : Option Value) (m : Fields) → decode_value o ≡ ok m → is_control_message m ≡ true
unfolding is_control_message
value-typed o m h =
    let (raw, type, at_o, at_type, typed) = decode_value-inversion o m h in
    let v = version_of (lookup "v" raw) in
    let (u, l, switched) = decode_typed-inversion type v raw m typed in
    let (c, known, cased) = decode_switch-inversion type v raw (get type cases) m switched in
    let (own, inner, e, e2, f) = decode_case-inversion type v raw c m cased in
    let fits = get-all fits_union type c cases cases_fit_union known in
    let inner_fits = fits_inner (distinct c.own) _ _ _ fits in
    let all_typed =
      conforms_entries-both (entries_of c.own) (nested_entries c.nested) _
        (own-typed type v raw own inner c.own c.nested (ground (arith, fits)) (ground (arith, fits))
          inner_fits e e2)
        (nested-typed type v raw own inner c.own c.nested inner_fits e e2) in
    subst (λ x. is_control_message x ≡ true) (sym f)
      (union-typed type (lookup "v" raw) (join own inner) c (get type control_message)
        (ground (arith, fits)) all_typed)

module _ {ℓ} {Line : Type ℓ} (parse : Line → Option Value) where
  -- What is decoded from a line, of whatever type, has the type that the union of the messages
  -- declares for it: its `type` is the name, its `v` a number, every declared property is there
  -- unless it is optional, and what is there has the declared type, also inside arrays and objects.
  pub decode-typed :
      (line : Line) (m : Fields)
      → decode_control_message parse line ≡ ok m
      → is_control_message m ≡ true
  unfolding decode_control_message
  decode-typed line m h = value-typed (parse line) m h
