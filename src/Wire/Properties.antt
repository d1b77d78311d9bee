-- ===== src/Wire/Properties.antt =====
-- What the reader of one property gives, as it stands in the decoded message.
use tailii_host.Prelude.{
  String, Bool, true, false, List, [], ◌∷◌, ◌++◌, Option, none, some, ◌==◌, ==_iff, string_eq, ◌≡◌,
  ap, sym, ◌∙◌, subst, arith,
}
use tailii_host.Prelude.Maps.{get}
use tailii_host.Wire.Values.{Value, Fields, lookup, join}
use tailii_host.Wire.Reading.{ok, Reader, ok-inversion}
use tailii_host.Wire.Parts.{
  Part, at, lookup-given, finish-inversion, declares, entries_of, distinct, literal, literal-only,
  literal-inversion, declares-apart, declares-both, lookup-left, lookup-right,
}
use tailii_host.Wire.Table.{Case, cases}
use tailii_host.Wire.Decode.{decode_value, message, nested_literal, version_of}
use tailii_host.Wire.Inversion.{
  decode_case-inversion, decode_switch-inversion, decode_typed-inversion, decode_value-inversion,
}
use tailii_host.Wire.Sent.{type_of}

-- The entry of a part in the middle of a literal is what its reader gave.
module _ (key : String) (r : Reader) (post : List Part) where
  declares-at : (pre : List Part) → declares key (entries_of (pre ++ (at key r ∷ post))) ≡ true
  declares-at [] = ground (arith, ==_iff {A = String} key key)
  declares-at (p ∷ pre) =
      declares-both key p.entries (entries_of (pre ++ (at key r ∷ post)))
      ∙ ground (arith, declares-at pre)

  literal-at :
      (pre : List Part) (raw fs : Fields)
      → distinct (pre ++ (at key r ∷ post)) ≡ true
      → literal (pre ++ (at key r ∷ post)) raw ≡ ok fs
      → (out : Option Value) × (r.read (lookup key raw) ≡ ok out) × (lookup key fs ≡ out)
  literal-at [] raw fs d h =
      let (gs, hs, e, e2, f) = literal-inversion (at key r) post raw fs h in
      let (out, e3, g) = finish-inversion key (r.read (lookup key raw)) gs e in
      let absent = literal-only post raw hs key e2 (ground (arith, d)) in
      (
        out,
        e3,
        ap (lookup key) f ∙ lookup-left key gs hs absent ∙ ap (lookup key) g ∙ lookup-given key out,
      )
  literal-at (p ∷ pre) raw fs d h =
      let (gs, hs, e, e2, f) = literal-inversion p (pre ++ (at key r ∷ post)) raw fs h in
      let (out, e3, g) = literal-at pre raw hs (ground (arith, d)) e2 in
      let absent = p.only raw gs key e (
        ground (
          arith,
          declares-apart key p.entries (entries_of (pre ++ (at key r ∷ post))),
          d,
          declares-at pre,
        )) in
      (out, e3, ap (lookup key) f ∙ lookup-right key gs hs absent ∙ g)

lookup-message :
    (key t : String) (v : Value) (fs : Fields)
    → ("type" == key) ≡ false
    → ("v" == key) ≡ false
    → lookup key (message t v fs) ≡ lookup key fs
lookup-message key t v fs n m = ground arith

pub same_text : (a b : String) → (a == b) ≡ true → a ≡ b
same_text a b h = ground (arith, ==_iff {A = String} a b)

pub some_inversion : {a b : Case} → some a ≡ some b → a ≡ b
some_inversion h = cc

-- What holds of all that a reader gives holds of the property that it reads.
module _ (type key : String) (r : Reader) (pre post : List Part) (holds : Option Value → Bool) where
  abbrev expected : Case
  expected = record { own = pre ++ (at key r ∷ post); nested = none }

  case-holds :
      (t : String) (v : Value) (raw own inner : Fields) (c : Case)
      → distinct (pre ++ (at key r ∷ post)) ≡ true
      → ("type" == key) ≡ false
      → ("v" == key) ≡ false
      → ((o out : Option Value) → r.read o ≡ ok out → holds out ≡ true)
      → c ≡ expected
      → literal c.own raw ≡ ok own
      → nested_literal c.nested raw ≡ ok inner
      → holds (lookup key (message t v (join own inner))) ≡ true
  case-holds t v raw own inner c d not_type not_v all_hold is e e2 =
      let own_read = ap (λ x. literal x.own raw) (sym is) ∙ e in
      let ends = ok-inversion (ap (λ x. nested_literal x.nested raw) (sym is) ∙ e2) in
      let (out, e3, g) = literal-at key r post pre raw own d own_read in
      subst (λ x. holds x ≡ true)
        (sym (
          lookup-message key t v (join own inner) not_type not_v
          ∙ lookup-left key own inner (ap (lookup key) (sym ends))
          ∙ g))
        (all_hold (lookup key raw) out e3)

  pub property-holds :
      get type cases ≡ some expected
      → distinct (pre ++ (at key r ∷ post)) ≡ true
      → ("type" == key) ≡ false
      → ("v" == key) ≡ false
      → ((o out : Option Value) → r.read o ≡ ok out → holds out ≡ true)
      → (o : Option Value) (m : Fields) → decode_value o ≡ ok m
      → (type_of m == type) ≡ true
      → holds (lookup key m) ≡ true
  property-holds known d not_type not_v all_hold o m h is =
      let (raw, t, at_o, at_type, typed) = decode_value-inversion o m h in
      let v = version_of (lookup "v" raw) in
      let (u, l, switched) = decode_typed-inversion t v raw m typed in
      let (c, found, cased) = decode_switch-inversion t v raw (get t cases) m switched in
      let (own, inner, e, e2, f) = decode_case-inversion t v raw c m cased in
      let same_type = same_text t type (ap (λ x. type_of x == type) (sym f) ∙ is) in
      let same_case = some_inversion (sym found ∙ ap (λ x. get x cases) same_type ∙ known) in
      ap (λ x. holds (lookup key x)) f
      ∙ case-holds t v raw own inner c d not_type not_v all_hold same_case e e2
