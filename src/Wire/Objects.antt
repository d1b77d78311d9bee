-- ===== src/Wire/Objects.antt =====
-- Objects inside a message: `requireObject`, then an object literal. And what a literal promises.
use tailii_host.Prelude.{
  String, true, false, List, [], ◌∷◌, none, ==_iff, string_eq, ◌≡◌, refl, ap, sym, ◌∙◌, arith,
}
use tailii_host.Wire.Values.{
  Value, null, bool, num, real, infinite, str, arr, obj, Fields, lookup, canonicalize,
  lookup-canonicalize_fields,
}
use tailii_host.Wire.Shapes.{
  object_type, Entries, no_entries, entry, conforms, conforms_entries, is_null,
}
use tailii_host.Wire.Reading.{Reason, Result, ok, fail, missing_field, ◌>>=◌, Element, Reader}
use tailii_host.Wire.Readers.{unless_nullish}
use tailii_host.Wire.Arrays.{array_slice, run_array-is_null}
use tailii_host.Wire.Parts.{
  Part, Encodes, declares, both, entries_of, distinct, literal, literal-only, literal-steady,
  literal-refuses, literal-inversion, declares-apart, lookup-left, lookup-right, >>=-inversion,
}

-- The type of an object reads only the entries that it declares.
pub conforms_entries-agree :
    (es : Entries) (fs gs : Fields)
    → ((k : String) → declares k es ≡ true → lookup k gs ≡ lookup k fs)
    → conforms_entries es fs ≡ true
    → conforms_entries es gs ≡ true
unfolding conforms
conforms_entries-agree no_entries fs gs agree h = refl
conforms_entries-agree (entry j optional t es) fs gs agree h = ground (
  arith,
  agree j (ground (arith, ==_iff {A = String} j j)),
  conforms_entries-agree es fs gs (λ k is. agree k (ground (arith, is))),
)

pub conforms_entries-both :
    (ds es : Entries) (fs : Fields)
    → conforms_entries ds fs ≡ true
    → conforms_entries es fs ≡ true
    → conforms_entries (both ds es) fs ≡ true
unfolding conforms
conforms_entries-both no_entries es fs h k = k
conforms_entries-both (entry j optional t ds) es fs h k =
    ground (arith, conforms_entries-both ds es fs)

pub literal-typed :
    (ps : List Part) (raw fs : Fields)
    → distinct ps ≡ true
    → literal ps raw ≡ ok fs
    → conforms_entries (entries_of ps) fs ≡ true
unfolding conforms
literal-typed [] raw fs d h = refl
literal-typed (p ∷ ps) raw fs d h =
    let (gs, hs, e, e2, f) = literal-inversion p ps raw fs h in
    let others = entries_of ps in
    conforms_entries-both p.entries others fs
      (conforms_entries-agree p.entries gs fs
        (λ k is.
          ap (lookup k) f
          ∙ lookup-left k gs hs
              (literal-only ps raw hs k e2 (declares-apart k p.entries others (ground arith) is)))
        (p.typed raw gs e))
      (conforms_entries-agree others hs fs
        (λ k is.
          ap (lookup k) f
          ∙ lookup-right k gs hs
              (p.only raw gs k e (ground (arith, declares-apart k p.entries others, is))))
        (literal-typed ps raw hs (ground arith) e2))

-- `requireObject(value)`, and the literal made of its properties.
abbrev read_object : List Part → Value → Result Value
read_object ps (obj raw) = literal ps raw >>= λ fs. ok (obj fs)
read_object ps _ = fail missing_field

read_object-inversion :
    (ps : List Part) (v w : Value)
    → read_object ps v ≡ ok w
    → (raw fs : Fields) × (literal ps raw ≡ ok fs) × (w ≡ obj fs)
read_object-inversion ps (obj raw) w h =
    let (fs, e, f) = >>=-inversion (literal ps raw) _ w h in (raw, fs, e, cc)
read_object-inversion ps null w h = absurd (cc)
read_object-inversion ps (bool b) w h = absurd (cc)
read_object-inversion ps (num n) w h = absurd (cc)
read_object-inversion ps (real s n d) w h = absurd (cc)
read_object-inversion ps (infinite s) w h = absurd (cc)
read_object-inversion ps (str s) w h = absurd (cc)
read_object-inversion ps (arr vs) w h = absurd (cc)

pub read_object-steady :
    (ps : List Part)
    → distinct ps ≡ true
    → (v w : Value) → read_object ps v ≡ ok w
    → read_object ps (canonicalize w) ≡ ok w
unfolding canonicalize Encodes
read_object-steady ps d v w h =
    let (raw, fs, e, f) = read_object-inversion ps v w h in
    ap (λ x. read_object ps (canonicalize x)) f
    ∙ ap (λ m. m >>= λ gs. ok (obj gs))
        (literal-steady ps raw fs _ d e (λ k is. lookup-canonicalize_fields k fs))
    ∙ ap ok (sym f)

pub read_object-typed :
    (ps : List Part)
    → distinct ps ≡ true
    → (v w : Value) → read_object ps v ≡ ok w
    → conforms (object_type (entries_of ps)) w ≡ true
unfolding conforms
read_object-typed ps d v w h =
    let (raw, fs, e, f) = read_object-inversion ps v w h in
    ap (conforms (object_type (entries_of ps))) f ∙ literal-typed ps raw fs d e

pub read_object-is_null :
    (ps : List Part) (v w : Value) → read_object ps v ≡ ok w → is_null (canonicalize w) ≡ false
unfolding canonicalize
read_object-is_null ps v w h =
    let (raw, fs, e, f) = read_object-inversion ps v w h in ap (λ x. is_null (canonicalize x)) f

pub read_object-refuses :
    (ps : List Part) (v : Value) (r : Reason) → read_object ps v ≡ fail r → r ≡ missing_field
read_object-refuses ps v r h = grind (arith, literal-refuses ps)

abbrev pub object : (ps : List Part) → distinct ps ≡ true → Element
object ps d = record {
  run = read_object ps;
  type = object_type (entries_of ps);
  steady = read_object-steady ps d;
  typed = read_object-typed ps d;
  refuses = read_object-refuses ps;
}

-- An object unless `undefined` or `null` stands there.
abbrev pub optional_object : (ps : List Part) → distinct ps ≡ true → Reader
optional_object ps d = unless_nullish (object ps d) (read_object-is_null ps)

-- An array unless `undefined` or `null` stands there.
abbrev pub optional_array : Element → Reader
optional_array e = unless_nullish (array_slice none e) (run_array-is_null e none)
