-- ===== src/Wire/Pairs.antt =====
-- Two properties of which the second is taken only for some values of the first. The order of an
-- object's properties cannot be seen, and here the second stands next to the first.
use mathlib.Core.Option
use tailii_host.Prelude.{
  String, Bool, true, false, [], ◌∷◌, Option, none, some, ◌==◌, ==_iff, string_eq, if◌then◌else◌,
  is_some, ◌≡◌, refl, ap, sym, ◌∙◌, arith, Bool-cases, inl, inr,
}
use tailii_host.Wire.Values.{Value, Fields, lookup, join, canonicalize}
use tailii_host.Wire.Shapes.{
  Entries, no_entries, entry, is_one_of, conforms, conforms_option, conforms_entries,
}
use tailii_host.Wire.Reading.{Kind, Result, ok, fail, Reader, ok-inversion}
use tailii_host.Wire.Kinds.{one_of}
use tailii_host.Wire.Readers.{optional, take, optional_string, require_one_of}
use tailii_host.Wire.Parts.{
  Part, given, lookup-given, lookup-given_ne, lookup-left, lookup-right, Encodes, declares,
}

abbrev choose : (Option Value → Bool) → (Value → Bool) → Option Value → Option Value → Option Value
choose test p a o = if test a then take p o else none

take-steady :
    (k : Kind) (o : Option Value)
    → take k.holds (Option.map canonicalize (take k.holds o)) ≡ take k.holds o
take-steady k o = ok-inversion ((optional k).steady o (take k.holds o) refl)

choose-steady :
    (test : Option Value → Bool) (k : Kind) (a o : Option Value)
    → choose test k.holds a (Option.map canonicalize (choose test k.holds a o))
      ≡ choose test k.holds a o
choose-steady test k a o = elim (Bool-cases (test a)) [
  | inl e ↦ rw e (take-steady k o)
  | inr e ↦ rw e refl
]

choose-typed :
    (test : Option Value → Bool) (k : Kind) (a o : Option Value)
    → conforms_option true k.type (choose test k.holds a o) ≡ true
choose-typed test k a o = elim (Bool-cases (test a)) [
  | inl e ↦ rw e ((optional k).typed o (take k.holds o) refl)
  | inr e ↦ rw e refl
]

-- The two properties, as they are read.
abbrev two : String → String → Option Value → Option Value → Fields
two k1 k2 a b = join (given k1 a) (given k2 b)

lookup-two_left :
    (k1 k2 : String) (a b : Option Value) → (k1 == k2) ≡ false → lookup k1 (two k1 k2 a b) ≡ a
lookup-two_left k1 k2 a b d =
    lookup-left k1 (given k1 a) (given k2 b) (
      lookup-given_ne k1 k2 b
        (ground (arith, ==_iff {A = String} k1 k2, ==_iff {A = String} k2 k1)))
    ∙ lookup-given k1 a

lookup-two_right :
    (k1 k2 : String) (a b : Option Value) → (k1 == k2) ≡ false → lookup k2 (two k1 k2 a b) ≡ b
lookup-two_right k1 k2 a b d =
    lookup-right k2 (given k1 a) (given k2 b) (lookup-given_ne k2 k1 a d) ∙ lookup-given k2 b

abbrev and_second :
    String
    → String
    → (Option Value → Bool)
    → (Value → Bool)
    → Option Value
    → Result (Option Value)
    → Result Fields
and_second k1 k2 test p o (fail reason) = fail reason
and_second k1 k2 test p o (ok a) = ok (two k1 k2 a (choose test p a o))

and_second-inversion :
    (k1 k2 : String) (test : Option Value → Bool) (p : Value → Bool) (o : Option Value)
    (r : Result (Option Value)) (fs : Fields)
    → and_second k1 k2 test p o r ≡ ok fs
    → (a : Option Value) × (r ≡ ok a) × (fs ≡ two k1 k2 a (choose test p a o))
and_second-inversion k1 k2 test p o (ok a) fs h = (a, refl, cc)
and_second-inversion k1 k2 test p o (fail reason) fs h = absurd (cc)

-- `role === "tool"`.
abbrev is_tool : Option Value → Bool
is_tool none = false
is_tool (some v) = is_one_of ("tool" ∷ []) v

-- `k1` is read by `r`; `k2` is taken only if the value of `k1` passes, and is left out otherwise.
module _ (k1 k2 : String) (r : Reader) (k : Kind) (test : Option Value → Bool) where
  abbrev pub pair_entries : Entries
  pair_entries = entry k1 r.optional r.type (entry k2 true k.type no_entries)

  abbrev pub read_pair : Fields → Result Fields
  read_pair raw = and_second k1 k2 test k.holds (lookup k2 raw) (r.read (lookup k1 raw))

  pub pair-only :
      (raw fs : Fields) (j : String)
      → read_pair raw ≡ ok fs
      → declares j pair_entries ≡ false
      → lookup j fs ≡ none
  pair-only raw fs j h n =
      let (a, e, f) = and_second-inversion k1 k2 test k.holds (lookup k2 raw) _ fs h in
      ap (lookup j) f
      ∙ lookup-left j (given k1 a) (given k2 _) (lookup-given_ne j k2 _ (ground arith))
      ∙ lookup-given_ne j k1 a (ground arith)

  pub pair-steady :
      (k1 == k2) ≡ false
      → (raw fs again : Fields) → read_pair raw ≡ ok fs
      → Encodes pair_entries fs again
      → read_pair again ≡ ok fs
  unfolding Encodes
  pair-steady d raw fs again h same =
      let (a, e, f) = and_second-inversion k1 k2 test k.holds (lookup k2 raw) _ fs h in
      let b = choose test k.holds a (lookup k2 raw) in
      let first =
        same k1 (ground (arith, ==_iff {A = String} k1 k1))
        ∙ ap (Option.map canonicalize) (ap (lookup k1) f ∙ lookup-two_left k1 k2 a b d) in
      let second =
        same k2 (ground (arith, ==_iff {A = String} k2 k2))
        ∙ ap (Option.map canonicalize) (ap (lookup k2) f ∙ lookup-two_right k1 k2 a b d) in
      ap (λ x. and_second k1 k2 test k.holds (lookup k2 again) (r.read x)) first
      ∙ ap (and_second k1 k2 test k.holds (lookup k2 again)) (r.steady (lookup k1 raw) a e)
      ∙ ap (λ x. ok (two k1 k2 a (choose test k.holds a x))) second
      ∙ ap (λ x. ok (two k1 k2 a x)) (choose-steady test k a (lookup k2 raw))
      ∙ ap ok (sym f)

  pub pair-typed :
      (k1 == k2) ≡ false
      → (raw fs : Fields) → read_pair raw ≡ ok fs
      → conforms_entries pair_entries fs ≡ true
  unfolding conforms
  pair-typed d raw fs h =
      let (a, e, f) = and_second-inversion k1 k2 test k.holds (lookup k2 raw) _ fs h in
      let b = choose test k.holds a (lookup k2 raw) in
      ground (
        arith,
        ap (lookup k1) f ∙ lookup-two_left k1 k2 a b d,
        ap (lookup k2) f ∙ lookup-two_right k1 k2 a b d,
        r.typed (lookup k1 raw) a e,
        choose-typed test k a (lookup k2 raw),
      )

  abbrev pub pair : (k1 == k2) ≡ false → Part
  pair d = record {
    entries = pair_entries;
    read = read_pair;
    only = pair-only;
    steady = pair-steady d;
    typed = pair-typed d;
    refuses = λ raw reason h. grind (arith, r.refuses);
  }

-- An entry's `role`, and its `kind` for the role of a tool.
abbrev pub role_and_kind : Part
role_and_kind =
    pair "role" "kind" (require_one_of ("user" ∷ "assistant" ∷ "tool" ∷ []))
      (one_of ("tool_use" ∷ "tool_result" ∷ [])) is_tool refl

-- The name of a live session, and its backend if there is a name.
abbrev pub live_session : Part
live_session =
    pair "liveSessionName" "liveSessionBackend" optional_string (one_of ("tmux" ∷ "herdr" ∷ []))
      is_some refl
