-- ===== src/Wire/Parts.antt =====
-- The object literals of decode.ts. A part is what some entries of a literal are made of; an object is
-- its parts in order, with the entries that are `undefined` left out, as `compact` does.
use mathlib.Core.Option
use tailii_host.Prelude.{
  String, Bool, true, false, not, ◌&&◌, ◌||◌, List, [], ◌∷◌, Option, none, some, ◌==◌, ==_iff,
  string_eq, ◌≡◌, refl, ap, sym, ◌∙◌, arith,
}
use tailii_host.Wire.Values.{Value, Fields, end, field, lookup, join, lookup-join, canonicalize}
use tailii_host.Wire.Shapes.{Entries, no_entries, entry, conforms, conforms_entries}
use tailii_host.Wire.Reading.{Reason, missing_field, Result, ok, fail, ◌>>=◌, Reader}

-- The type of an entry of the name, with whether it is optional.
abbrev pub declares : String → Entries → Bool
declares k no_entries = false
declares k (entry j optional t es) = j == k || declares k es

abbrev pub both : Entries → Entries → Entries
both no_entries es = es
both (entry k optional t ds) es = entry k optional t (both ds es)

-- Two lists of entries have no name in common.
abbrev pub apart : Entries → Entries → Bool
apart no_entries es = true
apart (entry k optional t ds) es = not (declares k es) && apart ds es

-- `out` stands for what was read before, under each of these names.
unfoldable pub Encodes : Entries → Fields → Fields → Type 0
Encodes es fs raw =
    (k : String) → declares k es ≡ true → lookup k raw ≡ Option.map canonicalize (lookup k fs)

pub record Part : Type 0 where
  pub entries : Entries
  pub read : Fields → Result Fields
  pub only :
      (raw fs : Fields) (k : String)
      → read raw ≡ ok fs
      → declares k entries ≡ false
      → lookup k fs ≡ none
  pub steady :
      (raw fs again : Fields) → read raw ≡ ok fs → Encodes entries fs again → read again ≡ ok fs
  pub typed : (raw fs : Fields) → read raw ≡ ok fs → conforms_entries entries fs ≡ true
  pub refuses : (raw : Fields) (reason : Reason) → read raw ≡ fail reason → reason ≡ missing_field

-- The entry `key: value`, unless the value is `undefined`.
abbrev pub given : String → Option Value → Fields
given key none = end
given key (some v) = field key v end

pub lookup-given : (key : String) (o : Option Value) → lookup key (given key o) ≡ o
lookup-given key none = refl
lookup-given key (some v) = ground (arith, ==_iff {A = String} key key)

pub lookup-given_ne :
    (k key : String) (o : Option Value) → (key == k) ≡ false → lookup k (given key o) ≡ none
lookup-given_ne k key none h = refl
lookup-given_ne k key (some v) h = ground arith

abbrev pub finish : String → Result (Option Value) → Result Fields
finish key (ok out) = ok (given key out)
finish key (fail reason) = fail reason

pub finish-inversion :
    (key : String) (r : Result (Option Value)) (fs : Fields)
    → finish key r ≡ ok fs
    → (out : Option Value) × (r ≡ ok out) × (fs ≡ given key out)
finish-inversion key (ok out) fs h = (out, refl, cc)
finish-inversion key (fail reason) fs h = absurd (cc)

abbrev pub one_entry : String → Reader → Entries
one_entry key r = entry key r.optional r.type no_entries

pub at-only :
    (key : String) (r : Reader) (raw fs : Fields) (k : String)
    → finish key (r.read (lookup key raw)) ≡ ok fs
    → declares k (one_entry key r) ≡ false
    → lookup k fs ≡ none
at-only key r raw fs k h n =
    let (out, e, f) = finish-inversion key _ fs h in
    ap (lookup k) f ∙ lookup-given_ne k key out (ground arith)

pub at-steady :
    (key : String) (r : Reader) (raw fs again : Fields)
    → finish key (r.read (lookup key raw)) ≡ ok fs
    → Encodes (one_entry key r) fs again
    → finish key (r.read (lookup key again)) ≡ ok fs
unfolding Encodes
at-steady key r raw fs again h same =
    let (out, e, f) = finish-inversion key _ fs h in
    let at_key = same key (ground (arith, ==_iff {A = String} key key)) in
    let stands = at_key ∙ ap (Option.map canonicalize) (ap (lookup key) f ∙ lookup-given key out) in
    ap (λ o. finish key (r.read o)) stands
    ∙ ap (finish key) (r.steady (lookup key raw) out e)
    ∙ ap ok (sym f)

pub at-typed :
    (key : String) (r : Reader) (raw fs : Fields)
    → finish key (r.read (lookup key raw)) ≡ ok fs
    → conforms_entries (one_entry key r) fs ≡ true
unfolding conforms
at-typed key r raw fs h =
    let (out, e, f) = finish-inversion key _ fs h in
    let stands = ap (lookup key) f ∙ lookup-given key out in
    ground (arith, stands, r.typed (lookup key raw) out e)

-- The entry `key: read(raw, key)`.
abbrev pub at : String → Reader → Part
at key r = record {
  entries = one_entry key r;
  read = λ raw. finish key (r.read (lookup key raw));
  only = at-only key r;
  steady = at-steady key r;
  typed = at-typed key r;
  refuses = λ raw reason h. grind (arith, r.refuses);
}

-- An object literal of some parts.
abbrev pub entries_of : List Part → Entries
entries_of [] = no_entries
entries_of (p ∷ ps) = both p.entries (entries_of ps)

-- No name stands twice in the literal.
abbrev pub distinct : List Part → Bool
distinct [] = true
distinct (p ∷ ps) = apart p.entries (entries_of ps) && distinct ps

abbrev pub literal : List Part → Fields → Result Fields
literal [] raw = ok end
literal (p ∷ ps) raw = p.read raw >>= λ fs. literal ps raw >>= λ gs. ok (join fs gs)

pub >>=-inversion {ℓ κ} :
    {A : Type ℓ} {B : Type κ} (m : Result A) (f : A → Result B) (b : B)
    → (m >>= f) ≡ ok b
    → (a : A) × (m ≡ ok a) × (f a ≡ ok b)
>>=-inversion (ok a) f b h = (a, refl, h)
>>=-inversion (fail reason) f b h = absurd (cc)

pub declares-both :
    (k : String) (ds es : Entries) → declares k (both ds es) ≡ (declares k ds || declares k es)
declares-both k no_entries es = refl
declares-both k (entry j optional t ds) es = ground (arith, declares-both k ds es)

pub declares-apart :
    (k : String) (ds es : Entries)
    → apart ds es ≡ true
    → declares k ds ≡ true
    → declares k es ≡ false
declares-apart k no_entries es a h = absurd (cc)
declares-apart k (entry j optional t ds) es a h =
    ground (arith, declares-apart k ds es, ==_iff {A = String} j k)

-- What a successful reading of a literal gives: the first part, and the rest.
pub literal-inversion :
    (p : Part) (ps : List Part) (raw fs : Fields)
    → literal (p ∷ ps) raw ≡ ok fs
    → (gs hs : Fields) × (p.read raw ≡ ok gs) × (literal ps raw ≡ ok hs) × (fs ≡ join gs hs)
literal-inversion p ps raw fs h =
    let (gs, e, h2) = >>=-inversion (p.read raw) _ fs h in
    let (hs, e2, h3) = >>=-inversion (literal ps raw) _ fs h2 in (gs, hs, e, e2, cc)

pub literal-only :
    (ps : List Part) (raw fs : Fields) (k : String)
    → literal ps raw ≡ ok fs
    → declares k (entries_of ps) ≡ false
    → lookup k fs ≡ none
literal-only [] raw fs k h n = ground arith
literal-only (p ∷ ps) raw fs k h n =
    let (gs, hs, e, e2, f) = literal-inversion p ps raw fs h in
    let n2 = sym (declares-both k p.entries (entries_of ps)) ∙ n in
    ap (lookup k) f
    ∙ lookup-join k gs hs
    ∙ ground
        (arith, n2, p.only raw gs k e (ground arith), literal-only ps raw hs k e2 (ground arith))

-- In a literal of distinct names, a name of the first part has the entry of the first part.
pub lookup-left :
    (k : String) (gs hs : Fields) → lookup k hs ≡ none → lookup k (join gs hs) ≡ lookup k gs
lookup-left k gs hs n = ground (arith, lookup-join k gs hs)

pub lookup-right :
    (k : String) (gs hs : Fields) → lookup k gs ≡ none → lookup k (join gs hs) ≡ lookup k hs
lookup-right k gs hs n = ground (arith, lookup-join k gs hs)

pub literal-steady :
    (ps : List Part) (raw fs again : Fields)
    → distinct ps ≡ true
    → literal ps raw ≡ ok fs
    → Encodes (entries_of ps) fs again
    → literal ps again ≡ ok fs
unfolding Encodes
literal-steady [] raw fs again d h same = h
literal-steady (p ∷ ps) raw fs again d h same =
    let (gs, hs, e, e2, f) = literal-inversion p ps raw fs h in
    let others = entries_of ps in
    let first = p.steady raw gs again e (λ k is.
      same k (declares-both k p.entries others ∙ ground (arith, is))
      ∙ ap (λ o. Option.map canonicalize o)
          (ap (lookup k) f
            ∙ lookup-left k gs hs (
                literal-only ps raw hs k e2
                  (declares-apart k p.entries others (ground arith) is)))) in
    let rest = literal-steady ps raw hs again (ground arith) e2 (λ k is.
      same k (declares-both k p.entries others ∙ ground (arith, is))
      ∙ ap (λ o. Option.map canonicalize o)
          (ap (lookup k) f
            ∙ lookup-right k gs hs
                (p.only raw gs k e (ground (arith, declares-apart k p.entries others, is))))) in
    ap (λ m. m >>= λ xs. literal ps again >>= λ ys. ok (join xs ys)) first
    ∙ ap (λ m. m >>= λ ys. ok (join gs ys)) rest
    ∙ ap ok (sym f)

pub literal-refuses :
    (ps : List Part) (raw : Fields) (r : Reason) → literal ps raw ≡ fail r → r ≡ missing_field
literal-refuses [] raw r h = absurd (cc)
literal-refuses (p ∷ ps) raw r h = grind (arith, p.refuses, literal-refuses ps)
