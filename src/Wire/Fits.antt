-- ===== src/Wire/Fits.antt =====
-- When a value of one type has another type too.
use tailii_host.Prelude.{
  String, Bool, true, false, not, ◌&&◌, ◌||◌, List, [], ◌∷◌, none, some, ◌==◌, ==_iff, string_eq,
  if◌then◌else◌, all, ◌≡◌, refl, arith, Bool-cases, inl, inr,
}
use tailii_host.Prelude.Text.{has_name}
use tailii_host.Wire.Values.{Value, str, arr, obj, Items, nil, cons, Fields, lookup}
use tailii_host.Wire.Shapes.{
  Shape, string_type, number_type, boolean_type, literals, nullable, array_type, object_type,
  Entries, no_entries, entry, is_null, is_string, is_number, is_boolean, is_one_of, every_item,
  is_array_of, is_object_with, conforms, conforms_entries,
}

abbrev is_text : Shape → Bool
is_text string_type = true
is_text (literals names) = true
is_text _ = false

abbrev is_numeric : Shape → Bool
is_numeric number_type = true
is_numeric _ = false

abbrev is_logical : Shape → Bool
is_logical boolean_type = true
is_logical _ = false

abbrev is_within : List String → Shape → Bool
is_within names (literals ms) = all (λ m. has_name m names) ms
is_within names _ = false

abbrev stripped : Shape → Shape
stripped (nullable t) = t
stripped t = t

abbrev is_array_type : (Shape → Bool) → Shape → Bool
is_array_type p (array_type t) = p t
is_array_type p _ = false

abbrev is_object_type : (Entries → Bool) → Shape → Bool
is_object_type p (object_type ds) = p ds
is_object_type p _ = false

-- There is an entry of the name whose type passes, and that is missing only if it may be.
abbrev has_entry : String → Bool → (Shape → Bool) → Entries → Bool
has_entry k optional p no_entries = false
has_entry k optional p (entry j o t ds) =
    let later = has_entry k optional p ds in if j == k then p t && (optional || not o) else later

unfoldable mutual
  pub fits : Shape → Shape → Bool
  fits t string_type = is_text t
  fits t number_type = is_numeric t
  fits t boolean_type = is_logical t
  fits t (literals names) = is_within names t
  fits t (nullable u) = fits (stripped t) u
  fits t (array_type u) = is_array_type (λ s. fits s u) t
  fits t (object_type es) = is_object_type (λ ds. provides ds es) t

  pub provides : Entries → Entries → Bool
  provides ds no_entries = true
  provides ds (entry k optional u es) = has_entry k optional (λ s. fits s u) ds && provides ds es

text_sound : (t : Shape) (v : Value) → is_text t ≡ true → conforms t v ≡ true → is_string v ≡ true
unfolding conforms
text_sound t v h c = ground arith

numeric_sound :
    (t : Shape) (v : Value) → is_numeric t ≡ true → conforms t v ≡ true → is_number v ≡ true
unfolding conforms
numeric_sound t v h c = ground arith

logical_sound :
    (t : Shape) (v : Value) → is_logical t ≡ true → conforms t v ≡ true → is_boolean v ≡ true
unfolding conforms
logical_sound t v h c = ground arith

has_name-within :
    (ms names : List String) (s : String)
    → all (λ m. has_name m names) ms ≡ true
    → has_name s ms ≡ true
    → has_name s names ≡ true
has_name-within [] names s h c = absurd (cc)
has_name-within (m ∷ ms) names s h c =
    ground (arith, has_name-within ms names s, ==_iff {A = String} m s)

within_sound :
    (names : List String) (t : Shape) (v : Value)
    → is_within names t ≡ true
    → conforms t v ≡ true
    → is_one_of names v ≡ true
unfolding conforms
within_sound names (literals ms) (str s) h c = has_name-within ms names s h c
within_sound names t v h c = ground arith

every_item-weaken :
    (p q : Value → Bool) (vs : Items)
    → ((v : Value) → p v ≡ true → q v ≡ true)
    → every_item p vs ≡ true
    → every_item q vs ≡ true
every_item-weaken p q nil w h = refl
every_item-weaken p q (cons v vs) w h = ground (arith, w v, every_item-weaken p q vs w)

array-weaken :
    (p q : Value → Bool) (v : Value)
    → ((w : Value) → p w ≡ true → q w ≡ true)
    → is_array_of p v ≡ true
    → is_array_of q v ≡ true
array-weaken p q (arr vs) w h = every_item-weaken p q vs w h
array-weaken p q v w h = absurd (ground arith)

object-weaken :
    (p q : Fields → Bool) (v : Value)
    → ((fs : Fields) → p fs ≡ true → q fs ≡ true)
    → is_object_with p v ≡ true
    → is_object_with q v ≡ true
object-weaken p q (obj fs) w h = w fs h
object-weaken p q v w h = absurd (ground arith)

stripped_sound :
    (t : Shape) (v : Value)
    → conforms t v ≡ true
    → is_null v ≡ false
    → conforms (stripped t) v ≡ true
unfolding conforms
stripped_sound (nullable t) v c n = ground arith
stripped_sound t v c n = c

-- An entry of a type that has enough is enough for the entry.
entry_sound :
    (k : String) (optional : Bool) (u : Shape) (p : Shape → Bool) (ds : Entries) (fs : Fields)
    → ((t : Shape) (v : Value) → p t ≡ true → conforms t v ≡ true → conforms u v ≡ true)
    → has_entry k optional p ds ≡ true
    → conforms_entries ds fs ≡ true
    → elim (lookup k fs) [ none ↦ optional | some v ↦ conforms u v ] ≡ true
unfolding conforms
entry_sound k optional u p no_entries fs sound h c = absurd (cc)
entry_sound k optional u p (entry j o t ds) fs sound h c =
    grind (arith, sound t, entry_sound k optional u p ds fs sound, ==_iff {A = String} j k)

mutual
  unfolding fits conforms

  pub fits_sound :
      (u t : Shape) (v : Value) → fits t u ≡ true → conforms t v ≡ true → conforms u v ≡ true
  fits_sound string_type t v h c = text_sound t v h c
  fits_sound number_type t v h c = numeric_sound t v h c
  fits_sound boolean_type t v h c = logical_sound t v h c
  fits_sound (literals names) t v h c = within_sound names t v h c
  fits_sound (nullable u) t v h c = elim (Bool-cases (is_null v)) [
    | inl e ↦ ground (arith, e)
    | inr e ↦ ground (arith, e, fits_sound u (stripped t) v h (stripped_sound t v c e))
  ]
  fits_sound (array_type u) (array_type t) v h c =
      array-weaken (conforms t) (conforms u) v (λ w. fits_sound u t w h) c
  fits_sound (array_type u) t v h c = absurd (cc)
  fits_sound (object_type es) (object_type ds) v h c =
      object-weaken (conforms_entries ds) (conforms_entries es) v (λ fs. provides_sound es ds fs h)
        c
  fits_sound (object_type es) t v h c = absurd (cc)

  pub provides_sound :
      (es ds : Entries) (fs : Fields)
      → provides ds es ≡ true
      → conforms_entries ds fs ≡ true
      → conforms_entries es fs ≡ true
  provides_sound no_entries ds fs h c = refl
  provides_sound (entry k optional u es) ds fs h c = ground (
    arith,
    entry_sound k optional u (λ s. fits s u) ds fs (fits_sound u) (ground arith) c,
    provides_sound es ds fs,
  )
