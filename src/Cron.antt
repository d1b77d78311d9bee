-- ===== src/Cron.antt =====
-- src/sessions/cronSchedule.ts: the next time of a five-field cron expression. Here: the fields. A text is
-- the list of its character codes. A number token is read as a natural number of any size.
pub mod Field
pub mod Allowed
pub mod Search
pub mod Earliest
pub mod Stop
pub mod Bounds
pub mod Renewal
use tailii_host.Prelude.{
  ℕ, zero, suc, ◌+◌, ◌-◌, ◌*◌, Bool, true, false, not, ◌&&◌, ◌||◌, String, List, [], ◌∷◌, Option,
  none, some, ◌==◌, nat_eq, if◌then◌else◌, ltb, leb, length, all, map, replicate, get_elem?, ◌++◌,
  any,
}
use tailii_host.Prelude.Text.{codes}
use tailii_host.LocalServers.{to_lower, same_codes}

-- `text.split(c)`: the first piece, and the others.
unfoldable pub split : ℕ → List ℕ → List ℕ × List (List ℕ)
split c [] = ([], [])
split c (x ∷ xs) =
    let (piece, pieces) = split c xs in if x == c then ([], piece ∷ pieces) else (x ∷ piece, pieces)

-- `/^\d+$/`.
unfoldable pub is_number : List ℕ → Bool
is_number token = not (length token == 0) && all (λ c. leb 48 c && leb c 57) token

-- `Number(token)` of a token of digits.
unfoldable pub number_from : ℕ → List ℕ → ℕ
number_from n [] = n
number_from n (c ∷ cs) = number_from (n * 10 + (c - 48)) cs

-- `names.indexOf(lower)`.
unfoldable pub index_of_name : List ℕ → List String → Option ℕ
unfolding same_codes
index_of_name lower [] = none
index_of_name lower (name ∷ names) =
    let later = index_of_name lower names in
    if same_codes lower (codes name)
    then some 0
    else elim later [ none ↦ none | some k ↦ some (suc k) ]

-- `parseValue`; without names, `names` is empty.
unfoldable pub parse_value : List ℕ → ℕ → ℕ → List String → ℕ → Option ℕ
unfolding index_of_name to_lower is_number number_from
parse_value token min max names name_base = elim (index_of_name (map to_lower token) names) [
  | some index ↦ some (index + name_base)
  | none ↦
      if is_number token && leb min (number_from 0 token) && leb (number_from 0 token) max
      then some (number_from 0 token)
      else none
]

-- `CronField`.
pub record CronField : Type 0 where
  pub allowed : List Bool
  pub wildcard : Bool

-- `allowed[v] === true`; out of range is `undefined`.
unfoldable pub allows : List Bool → ℕ → Bool
allows flags v = elim (get_elem? flags v) [ none ↦ false | some b ↦ b ]

-- `allowed[v] = true`, for an index in range.
unfoldable pub allow : List Bool → ℕ → List Bool
allow [] v = []
allow (b ∷ flags) zero = true ∷ flags
allow (b ∷ flags) (suc v) = b ∷ allow flags v

-- `for (let v = from; v <= to; v += step) allowed[v] = true`; a round of fuel for each `v`.
unfoldable pub mark : ℕ → ℕ → ℕ → ℕ → List Bool → List Bool
unfolding allow
mark zero v to step flags = flags
mark (suc fuel) v to step flags =
    let rest = mark fuel (v + step) to step (allow flags v) in if leb v to then rest else flags

-- What a part of a field stands for: from, to, step.
pub record Range : Type 0 where
  pub from : ℕ
  pub to : ℕ
  pub step : ℕ

-- The step after the slash.
unfoldable pub parse_step : List (List ℕ) → Option ℕ
unfolding is_number number_from
parse_step [] = some 1
parse_step (step_text ∷ []) =
    if not (is_number step_text) || number_from 0 step_text == 0
    then none
    else some (number_from 0 step_text)
parse_step (step_text ∷ extra ∷ _) = none

unfoldable pub span_of : Option ℕ → Option ℕ → ℕ → Option Range
span_of (some start) (some end) step =
    if ltb end start then none else some (record { from = start; to = end; step = step })
span_of _ _ step = none

unfoldable pub from_value : Option ℕ → Bool → ℕ → ℕ → Option Range
from_value none has_step max step = none
from_value (some value) has_step max step =
    some (record { from = value; to = if has_step then max else value; step = step })

-- `a-b`: the pieces around its dashes.
unfoldable pub parse_span : List ℕ → List (List ℕ) → ℕ → ℕ → List String → ℕ → ℕ → Option Range
unfolding span_of parse_value
parse_span a (b ∷ []) min max names name_base step =
    span_of (parse_value a min max names name_base) (parse_value b min max names name_base) step
parse_span a _ min max names name_base step = none

-- `rangeText === "*"`.
unfoldable pub is_star : List ℕ → Bool
unfolding same_codes
is_star text = same_codes text (42 ∷ [])

-- One part of a field, cut at its slashes.
unfoldable pub parse_part : List ℕ → List (List ℕ) → ℕ → ℕ → List String → ℕ → Option Range
unfolding parse_step parse_span from_value parse_value is_star split
parse_part range_text after_slash min max names name_base =
    if length range_text == 0 then none else elim (parse_step after_slash) [
      | none ↦ none
      | some step ↦
          if is_star range_text
          then some (record { from = min; to = max; step = step })
          else if not (length (split 45 range_text).1 == 0)
          then parse_span (split 45 range_text).0 (split 45 range_text).1 min max names name_base
              step
          else from_value (parse_value range_text min max names name_base)
              (not (length after_slash == 0)) max step
    ]

abbrev pub mark_range : Range → List Bool → List Bool
mark_range r flags = mark (suc (r.to - r.from)) r.from r.to r.step flags

-- The loop over the parts of a field.
unfoldable pub parse_parts : List (List ℕ) → ℕ → ℕ → List String → ℕ → CronField → Option CronField
unfolding parse_part mark split is_star
parse_parts [] min max names name_base field = some field
parse_parts (part ∷ parts) min max names name_base field =
    elim (parse_part (split 47 part).0 (split 47 part).1 min max names name_base) [
      | none ↦ none
      | some r ↦ parse_parts parts min max names name_base (record {
        allowed = mark_range r field.allowed;
        wildcard = field.wildcard || is_star (split 47 part).0;
      })
    ]

-- `parseField`.
unfoldable pub parse_field : List ℕ → ℕ → ℕ → List String → ℕ → Option CronField
unfolding parse_parts split
parse_field text min max names name_base =
    parse_parts ((split 44 text).0 ∷ (split 44 text).1) min max names name_base
      (record { allowed = replicate (suc max) false; wildcard = false })
