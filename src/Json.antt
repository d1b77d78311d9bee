-- ===== src/Json.antt =====
-- The values that `JSON.parse` makes, as the source's decoders see them.
-- A number is a natural number (the times, pids and counts that the files hold), or `infinite`, what
-- `JSON.parse` makes of a numeral too large for a double. A property that is not there is `none`.
use tailii_host.Prelude.{
  ℕ, Bool, true, false, String, List, [], ◌∷◌, Option, none, some, ◌==◌, string_eq, if◌then◌else◌,
}

mutual
  pub data Json : Type 0 where
    null : Json
    bool : Bool → Json
    num : ℕ → Json
    infinite : Json
    str : String → Json
    arr : Items → Json
    obj : Fields → Json

  pub data Items : Type 0 where
    nil : Items
    cons : Json → Items → Items

  pub data Fields : Type 0 where
    end : Fields
    field : String → Json → Fields → Fields

-- `fields[key]`.
abbrev pub lookup_field : String → Fields → Option Json
lookup_field key end = none
lookup_field key (field k v rest) =
    let later = lookup_field key rest in if k == key then some v else later

-- `raw[key]` for a `raw` that is known to be an object; `undefined` on any other value.
abbrev pub property : String → Json → Option Json
property key (obj fields) = lookup_field key fields
property key _ = none

-- `typeof value === "object" && value !== null && !Array.isArray(value)`.
abbrev pub is_record : Json → Bool
is_record (obj _) = true
is_record _ = false

-- The elements of an array.
abbrev pub items : Items → List Json
items nil = []
items (cons v vs) = v ∷ items vs

abbrev pub of_list : List Json → Items
of_list [] = nil
of_list (v ∷ vs) = cons v (of_list vs)

-- `typeof value === "string" ? value : undefined`.
abbrev pub as_string : Option Json → Option String
as_string (some (str s)) = some s
as_string _ = none

-- `typeof value === "number" && Number.isFinite(value) ? value : undefined`.
abbrev pub as_finite : Option Json → Option ℕ
as_finite (some (num n)) = some n
as_finite _ = none

-- `value === true`.
abbrev pub is_true : Option Json → Bool
is_true (some (bool b)) = b
is_true _ = false

-- A property that is written only if there is a value: `...(v !== undefined ? { key: v } : {})`.
abbrev pub optional : String → Option Json → Fields → Fields
optional key none rest = rest
optional key (some v) rest = field key v rest
