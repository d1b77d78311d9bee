-- ===== src/Cron/Field.antt =====
-- The loop that marks a range, and the bounds of the ranges that parts give.
use tailii_host.Prelude.{
  ℕ, zero, suc, ◌+◌, ◌*◌, ◌≤◌, ◌<◌, ◌≡◌, refl, sym, ap, ◌∙◌, ◌⊎◌, inl, inr, Bool, true, false, ◌||◌,
  List, [], ◌∷◌, Option, none, some, ◌==◌, nat_eq, leb, ltb, length, ◌&&◌, arith, Bool-cases,
  Option-cases, map, not, String,
}
use tailii_host.LocalServers.{to_lower}
use tailii_host.Cron.{
  Range, allows, allow, mark, parse_part, split, index_of_name, parse_value, parse_step, span_of,
  from_value, parse_span,
}

allows-allow :
    (flags : List Bool) (v k : ℕ)
    → allows (allow flags v) k ≡ (allows flags k || k == v && ltb v (length flags))
unfolding allows allow
allows-allow [] v k = ground arith
allows-allow (b ∷ flags) zero zero = ground arith
allows-allow (b ∷ flags) zero (suc k) = ground arith
allows-allow (b ∷ flags) (suc v) zero = ground arith
allows-allow (b ∷ flags) (suc v) (suc k) = ground (arith, allows-allow flags v k)

length-allow : (flags : List Bool) (v : ℕ) → length (allow flags v) ≡ length flags
unfolding allow
length-allow [] v = refl
length-allow (b ∷ flags) zero = refl
length-allow (b ∷ flags) (suc v) = ap suc (length-allow flags v)

-- `k` is one of `v`, `v + step`, ..., up to `to`.
abbrev pub Covers : ℕ → ℕ → ℕ → ℕ → Type 0
Covers v to step k = (j : ℕ) × (k ≡ v + j * step) × (k ≤ to)

mark-past :
    (fuel v to step : ℕ) (flags : List Bool) → leb v to ≡ false → mark fuel v to step flags ≡ flags
unfolding mark
mark-past zero v to step flags past = refl
mark-past (suc fuel) v to step flags past = rw past

mark-round :
    (fuel v to step : ℕ) (flags : List Bool)
    → leb v to ≡ true
    → mark (suc fuel) v to step flags ≡ mark fuel (v + step) to step (allow flags v)
unfolding mark
mark-round fuel v to step flags within = rw within

pub mark_only :
    (fuel v to step : ℕ) (flags : List Bool) (k : ℕ)
    → allows (mark fuel v to step flags) k ≡ true
    → (allows flags k ≡ true) ⊎ Covers v to step k
mark_only zero v to step flags k h = inl (unfold mark in h)
mark_only (suc fuel) v to step flags k h = elim (Bool-cases (leb v to)) [
  | inr past ↦ inl (ap (λ f. allows f k) (sym (mark-past (suc fuel) v to step flags past)) ∙ h)
  | inl within ↦
      elim (mark_only fuel (v + step) to step (allow flags v) k
        (ap (λ f. allows f k) (sym (mark-round fuel v to step flags within)) ∙ h)) [
          | inr (j, e, l) ↦ inr (suc j, omega (arith, e), l)
          | inl old ↦ elim (Bool-cases (allows flags k)) [
            | inl on ↦ inl on
            | inr off ↦
                let same : k ≡ v = ground (arith, old, allows-allow flags v k) in
                inr (0, omega (arith, same), ground (arith, same))
          ]
        ]
]

pub mark_all :
    (fuel v to step : ℕ) (flags : List Bool) (k : ℕ)
    → 0 < step
    → to < length flags
    → to < v + fuel
    → (allows flags k ≡ true) ⊎ Covers v to step k
    → allows (mark fuel v to step flags) k ≡ true
mark_all zero v to step flags k up room enough (inl on) = unfold mark in on
mark_all zero v to step flags k up room enough (inr (j, e, l)) = absurd (omega arith)
mark_all (suc fuel) v to step flags k up room enough why = elim (Bool-cases (leb v to)) [
  | inr past ↦ ap (λ f. allows f k) (mark-past (suc fuel) v to step flags past) ∙ old past why
  | inl within ↦
      ap (λ f. allows f k) (mark-round fuel v to step flags within)
      ∙ mark_all fuel (v + step) to step (allow flags v) k up (ground (arith, length-allow flags v))
          (omega arith) (next within why)
]
  where
    old : leb v to ≡ false → (allows flags k ≡ true) ⊎ Covers v to step k → allows flags k ≡ true
    old past (inl on) = on
    old past (inr (j, e, l)) = absurd (ground arith)

    next :
        leb v to ≡ true
        → (allows flags k ≡ true) ⊎ Covers v to step k
        → (allows (allow flags v) k ≡ true) ⊎ Covers (v + step) to step k
    next within (inl on) = inl (ground (arith, allows-allow flags v k))
    next within (inr (zero, e, l)) =
        let same : k ≡ v = omega arith in inl (ground (arith, allows-allow flags v k))
    next within (inr (suc j, e, l)) = inr (j, omega arith, l)

pub length-mark :
    (fuel v to step : ℕ) (flags : List Bool) → length (mark fuel v to step flags) ≡ length flags
length-mark zero v to step flags = unfold mark in refl
length-mark (suc fuel) v to step flags = elim (Bool-cases (leb v to)) [
  | inr past ↦ ap length (mark-past (suc fuel) v to step flags past)
  | inl within ↦
      ap length (mark-round fuel v to step flags within)
      ∙ length-mark fuel (v + step) to step (allow flags v)
      ∙ length-allow flags v
]

index_of_name-lt :
    (lower : List ℕ) (names : List String) (index : ℕ)
    → index_of_name lower names ≡ some index
    → index < length names
unfolding index_of_name
index_of_name-lt lower [] index e = absurd (cc)
index_of_name-lt lower (name ∷ names) index e = elim (Option-cases (index_of_name lower names)) [
  | inl missing ↦ ground arith
  | inr (later, found) ↦ ground (arith, index_of_name-lt lower names later found)
]

parse_value-le :
    (token : List ℕ) (min max : ℕ) (names : List String) (name_base v : ℕ)
    → length names + name_base ≤ suc max
    → parse_value token min max names name_base ≡ some v
    → v ≤ max
unfolding parse_value
parse_value-le token min max names name_base v fits e =
    elim (Option-cases (index_of_name (map to_lower token) names)) [
      | inl missing ↦ ground arith
      | inr (index, found) ↦ ground (arith, index_of_name-lt (map to_lower token) names index found)
    ]

parse_step-positive :
    (after_slash : List (List ℕ)) (step : ℕ) → parse_step after_slash ≡ some step → 0 < step
unfolding parse_step
parse_step-positive [] step e = ground arith
parse_step-positive (text ∷ []) step e = ground arith
parse_step-positive (text ∷ extra ∷ more) step e = absurd (cc)

-- What is known of a range that a part gives.
abbrev Fits : ℕ → ℕ → Range → Type 0
Fits max step r = (r.step ≡ step) × (r.to ≤ max)

span_of-Fits :
    (max step : ℕ) (start end : Option ℕ) (r : Range)
    → ((v : ℕ) → end ≡ some v → v ≤ max)
    → span_of start end step ≡ some r
    → Fits max step r
unfolding span_of
span_of-Fits max step none end r h e = absurd (cc)
span_of-Fits max step (some a) none r h e = absurd (cc)
span_of-Fits max step (some a) (some b) r h e = ground (arith, h b refl)

from_value-Fits :
    (max step : ℕ) (value : Option ℕ) (has_step : Bool) (r : Range)
    → ((v : ℕ) → value ≡ some v → v ≤ max)
    → from_value value has_step max step ≡ some r
    → Fits max step r
unfolding from_value
from_value-Fits max step none has_step r h e = absurd (cc)
from_value-Fits max step (some a) has_step r h e = ground (arith, h a refl)

module _ (min max : ℕ) (names : List String) (name_base : ℕ)
    (fits : length names + name_base ≤ suc max) where
  parse_span-Fits :
      (a : List ℕ) (rest : List (List ℕ)) (step : ℕ) (r : Range)
      → parse_span a rest min max names name_base step ≡ some r
      → Fits max step r
  unfolding parse_span
  parse_span-Fits a [] step r e = absurd (cc)
  parse_span-Fits a (b ∷ []) step r e =
      span_of-Fits max step (parse_value a min max names name_base)
        (parse_value b min max names name_base) r
        (λ v. parse_value-le b min max names name_base v fits) e
  parse_span-Fits a (b ∷ c ∷ more) step r e = absurd (cc)

  pub parse_part-Fits :
      (range_text : List ℕ) (after_slash : List (List ℕ)) (r : Range)
      → parse_part range_text after_slash min max names name_base ≡ some r
      → (0 < r.step) × (r.to ≤ max)
  unfolding parse_part
  parse_part-Fits range_text after_slash r e = elim (Option-cases (parse_step after_slash)) [
    | inl bad ↦ absurd (ground arith)
    | inr (step, good) ↦ ground (
      arith,
      parse_step-positive after_slash step good,
      parse_span-Fits (split 45 range_text).0 (split 45 range_text).1 step r,
      from_value-Fits max step (parse_value range_text min max names name_base)
          (not (length after_slash == 0)) r
          (λ v. parse_value-le range_text min max names name_base v fits),
    )
  ]
