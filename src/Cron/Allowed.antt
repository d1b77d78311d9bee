-- ===== src/Cron/Allowed.antt =====
-- A parsed field allows the values that its parts stand for, and no other.
use tailii_host.Prelude.{
  ℕ, zero, suc, ◌+◌, ◌-◌, ◌≤◌, ◌<◌, ◌≡◌, refl, sym, ap, ◌∙◌, ◌↔◌, ◌⊎◌, inl, inr, Bool, true, false,
  String, List, [], ◌∷◌, Option, none, some, ◌||◌, length, replicate, arith, Option-cases,
}
use tailii_host.Cron.{
  CronField, Range, allows, mark_range, parse_part, parse_parts, parse_field, split, is_star,
}
use tailii_host.Cron.Field.{Covers, mark_only, mark_all, length-mark, parse_part-Fits}

length-mark_range : (r : Range) (flags : List Bool) → length (mark_range r flags) ≡ length flags
length-mark_range r flags = length-mark (suc (r.to - r.from)) r.from r.to r.step flags

-- One of the parts, parsed, stands for `k`.
abbrev pub PartsCover : List (List ℕ) → ℕ → ℕ → List String → ℕ → ℕ → Type 0
PartsCover [] min max names name_base k = true ≡ false
PartsCover (part ∷ parts) min max names name_base k =
    ((r : Range) × (parse_part (split 47 part).0 (split 47 part).1 min max names name_base ≡ some r)
      × Covers r.from r.to r.step k)
    ⊎ PartsCover parts min max names name_base k

none_allowed : (n k : ℕ) → allows (replicate n false) k ≡ false
unfolding allows
none_allowed zero k = refl
none_allowed (suc n) zero = refl
none_allowed (suc n) (suc k) = none_allowed n k

length-replicate : (n : ℕ) → length (replicate n false) ≡ n
length-replicate zero = refl
length-replicate (suc n) = ap suc (length-replicate n)

module _ (min max : ℕ) (names : List String) (name_base : ℕ)
    (fits : length names + name_base ≤ suc max) where
  -- The field after one more part.
  abbrev marked : CronField → List ℕ → Range → CronField
  marked field part r = record {
    allowed = mark_range r field.allowed;
    wildcard = field.wildcard || is_star (split 47 part).0;
  }

  abbrev range_of : List ℕ → Option Range
  range_of part = parse_part (split 47 part).0 (split 47 part).1 min max names name_base

  parse_parts-eq_none :
      (part : List ℕ) (parts : List (List ℕ)) (field : CronField)
      → range_of part ≡ none
      → parse_parts (part ∷ parts) min max names name_base field ≡ none
  unfolding parse_parts
  parse_parts-eq_none part parts field e = rw (e, parse_parts)

  parse_parts-eq_some :
      (part : List ℕ) (parts : List (List ℕ)) (field : CronField) (r : Range)
      → range_of part ≡ some r
      → parse_parts (part ∷ parts) min max names name_base field
        ≡ parse_parts parts min max names name_base (marked field part r)
  unfolding parse_parts
  parse_parts-eq_some part parts field r e = rw (e, parse_parts)

  parse_parts_only :
      (parts : List (List ℕ)) (field f : CronField) (k : ℕ)
      → parse_parts parts min max names name_base field ≡ some f
      → allows f.allowed k ≡ true
      → (allows field.allowed k ≡ true) ⊎ PartsCover parts min max names name_base k
  parse_parts_only [] field f k e h = inl (unfold parse_parts in ground arith)
  parse_parts_only (part ∷ parts) field f k e h = elim (Option-cases (range_of part)) [
    | inl bad ↦ absurd (cc (sym (parse_parts-eq_none part parts field bad) ∙ e))
    | inr (r, good) ↦
        elim (parse_parts_only parts (marked field part r) f k
          (sym (parse_parts-eq_some part parts field r good) ∙ e) h) [
            | inr more ↦ inr (inr more)
            | inl here ↦
                elim (mark_only (suc (r.to - r.from)) r.from r.to r.step field.allowed k here) [
                  | inl old ↦ inl old
                  | inr covers ↦ inr (inl (r, good, covers))
                ]
          ]
  ]

  parse_parts_all :
      (parts : List (List ℕ)) (field f : CronField) (k : ℕ)
      → max < length field.allowed
      → parse_parts parts min max names name_base field ≡ some f
      → (allows field.allowed k ≡ true) ⊎ PartsCover parts min max names name_base k
      → allows f.allowed k ≡ true
  parse_parts_all [] field f k room e (inl on) = unfold parse_parts in ground arith
  parse_parts_all [] field f k room e (inr never) = absurd (cc)
  parse_parts_all (part ∷ parts) field f k room e why = elim (Option-cases (range_of part)) [
    | inl bad ↦ absurd (cc (sym (parse_parts-eq_none part parts field bad) ∙ e))
    | inr (r, good) ↦
        parse_parts_all parts (marked field part r) f k
          (ground (arith, length-mark_range r field.allowed))
          (sym (parse_parts-eq_some part parts field r good) ∙ e) (next r good why)
  ]
    where
      next :
          (r : Range)
          → range_of part ≡ some r
          → (allows field.allowed k ≡ true) ⊎ PartsCover (part ∷ parts) min max names name_base k
          → (allows (mark_range r field.allowed) k ≡ true)
            ⊎ PartsCover parts min max names name_base k
      next r good (inr (inr more)) = inr more
      next r good (inl on) =
          let (up, low) =
            parse_part-Fits min max names name_base fits (split 47 part).0 (split 47 part).1 r
              good in
          inl (
            mark_all (suc (r.to - r.from)) r.from r.to r.step field.allowed k up (omega arith)
              (omega arith) (inl on))
      next r good (inr (inl (q, also, covers))) =
          let (up, low) =
            parse_part-Fits min max names name_base fits (split 47 part).0 (split 47 part).1 q
              also in
          let same : some q ≡ some r = sym also ∙ good in
          ground (
            arith,
            same,
            mark_all (suc (q.to - q.from)) q.from q.to q.step field.allowed k up (omega arith)
                (omega arith) (inr covers),
          )

  -- A field that parses allows exactly the numbers that one of its parts, cut at the commas, stands
  -- for: `from`, `from + step`, and so on up to `to`; the names have to lie within the bounds.
  pub parse_field-allows :
      (text : List ℕ) (f : CronField) (k : ℕ)
      → parse_field text min max names name_base ≡ some f
      → (allows f.allowed k ≡ true)
        ↔ PartsCover ((split 44 text).0 ∷ (split 44 text).1) min max names name_base k
  unfolding parse_field
  parse_field-allows text f k e = (only, all_of)
    where
      first : CronField
      first = record { allowed = replicate (suc max) false; wildcard = false }

      only :
          allows f.allowed k ≡ true
          → PartsCover ((split 44 text).0 ∷ (split 44 text).1) min max names name_base k
      only h = elim (parse_parts_only ((split 44 text).0 ∷ (split 44 text).1) first f k e h) [
        | inl on ↦ absurd (cc (on, none_allowed (suc max) k))
        | inr covers ↦ covers
      ]

      all_of :
          PartsCover ((split 44 text).0 ∷ (split 44 text).1) min max names name_base k
          → allows f.allowed k ≡ true
      all_of covers =
          parse_parts_all ((split 44 text).0 ∷ (split 44 text).1) first f k
            (ground (arith, length-replicate (suc max))) e (inr covers)
