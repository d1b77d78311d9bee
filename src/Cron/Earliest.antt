-- ===== src/Cron/Earliest.antt =====
-- The three loops of `nextCronFireMs` give the first time that is not too early, and, where the
-- clock goes steadily, the earliest.
use tailii_host.Prelude.{
  ℕ, zero, suc, ◌≤◌, ◌≡◌, refl, sym, ◌∙◌, Bool, true, false, List, [], ◌∷◌, ◌++◌, Option, none,
  some, leb, map, filter, find?, concat, ap, or_option, arith, Bool-cases, inl, inr, All, any, ◌⊎◌,
  ◌<◌, ◌==◌, nat_eq, ==_iff, subst,
}
use tailii_host.Cron.{allows}
use tailii_host.Cron.Search.{
  ParsedCron, Calendar, Day, day_matches, search_limit_days, try_minutes, try_hours, try_days,
  search_from, next_minute, next_cron_fire_ms, parse_cron,
}

-- `k`, `k + 1`, ..., `n` numbers.
abbrev pub upto : ℕ → ℕ → List ℕ
upto zero k = []
upto (suc n) k = k ∷ upto n (suc k)

module _ {A : Type 0} where
  find?-append :
      (p : A → Bool) (xs ys : List A) → find? p (xs ++ ys) ≡ or_option (find? p xs) (find? p ys)
  find?-append p [] ys = refl
  find?-append p (x ∷ xs) ys = ground (arith, find?-append p xs ys)

first_of : (o p : Option ℕ) → elim o [ some fire_ms ↦ some fire_ms | none ↦ p ] ≡ or_option o p
first_of none p = refl
first_of (some fire_ms) p = refl

module _ (cal : Calendar) (cron : ParsedCron) where
  -- The times of the expression, day by day.
  abbrev pub hour_times : ℕ → ℕ → Day → ℕ → List ℕ
  hour_times n minute day hour =
      map (cal.time_at day hour) (filter (allows cron.minute.allowed) (upto n minute))

  abbrev pub day_times : ℕ → ℕ → Day → List ℕ
  day_times n hour day =
      concat (map (hour_times 60 0 day) (filter (allows cron.hour.allowed) (upto n hour)))

  abbrev pub all_times : ℕ → ℕ → Day → List ℕ
  all_times n offset first = concat (
      map (λ k. day_times 24 0 (cal.days_later first k))
        (filter (λ k. day_matches cron (cal.days_later first k)) (upto n offset)))

  module _ (start : ℕ) where
    try_minutes_lem :
        (n minute : ℕ) (day : Day) (hour : ℕ)
        → try_minutes cal cron start n minute day hour
          ≡ find? (leb start) (hour_times n minute day hour)
    unfolding try_minutes
    try_minutes_lem zero minute day hour = refl
    try_minutes_lem (suc n) minute day hour =
        ground (arith, try_minutes_lem n (suc minute) day hour)

    try_hours-on :
        (n hour : ℕ) (day : Day)
        → allows cron.hour.allowed hour ≡ true
        → try_hours cal cron start (suc n) hour day
          ≡ or_option
              (try_minutes cal cron start 60 0 day hour)
              (try_hours cal cron start n (suc hour) day)
    unfolding try_hours
    try_hours-on n hour day on =
        rw (on, try_hours)
          (first_of (try_minutes cal cron start 60 0 day hour)
            (try_hours cal cron start n (suc hour) day))

    try_hours-off :
        (n hour : ℕ) (day : Day)
        → allows cron.hour.allowed hour ≡ false
        → try_hours cal cron start (suc n) hour day ≡ try_hours cal cron start n (suc hour) day
    unfolding try_hours
    try_hours-off n hour day off = rw (off, try_hours)

    try_hours_lem :
        (n hour : ℕ) (day : Day)
        → try_hours cal cron start n hour day ≡ find? (leb start) (day_times n hour day)
    try_hours_lem zero hour day = unfold try_hours in refl
    try_hours_lem (suc n) hour day = elim (Bool-cases (allows cron.hour.allowed hour)) [
      | inl on ↦
          try_hours-on n hour day on
          ∙ ap (λ o. or_option o (try_hours cal cron start n (suc hour) day))
              (try_minutes_lem 60 0 day hour)
          ∙ ap (or_option (find? (leb start) (hour_times 60 0 day hour)))
              (try_hours_lem n (suc hour) day)
          ∙ sym (find?-append (leb start) (hour_times 60 0 day hour) (day_times n (suc hour) day))
          ∙ rw on
      | inr off ↦ try_hours-off n hour day off ∙ try_hours_lem n (suc hour) day ∙ rw off
    ]

    try_days-on :
        (n offset : ℕ)
        → day_matches cron (cal.days_later (cal.day_of start) offset) ≡ true
        → try_days cal cron start (suc n) offset
          ≡ or_option
              (try_hours cal cron start 24 0 (cal.days_later (cal.day_of start) offset))
              (try_days cal cron start n (suc offset))
    unfolding try_days
    try_days-on n offset on =
        rw (on, try_days)
          (first_of (try_hours cal cron start 24 0 (cal.days_later (cal.day_of start) offset))
            (try_days cal cron start n (suc offset)))

    try_days-off :
        (n offset : ℕ)
        → day_matches cron (cal.days_later (cal.day_of start) offset) ≡ false
        → try_days cal cron start (suc n) offset ≡ try_days cal cron start n (suc offset)
    unfolding try_days
    try_days-off n offset off = rw (off, try_days)

    try_days_lem :
        (n offset : ℕ)
        → try_days cal cron start n offset
          ≡ find? (leb start) (all_times n offset (cal.day_of start))
    try_days_lem zero offset = unfold try_days in refl
    try_days_lem (suc n) offset =
        let day = cal.days_later (cal.day_of start) offset in
        elim (Bool-cases (day_matches cron day)) [
          | inl on ↦
              try_days-on n offset on
              ∙ ap (λ o. or_option o (try_days cal cron start n (suc offset)))
                  (try_hours_lem 24 0 day)
              ∙ ap (or_option (find? (leb start) (day_times 24 0 day)))
                  (try_days_lem n (suc offset))
              ∙ sym (
                  find?-append (leb start) (day_times 24 0 day)
                    (all_times n (suc offset) (cal.day_of start)))
              ∙ rw on
          | inr off ↦ try_days-off n offset off ∙ try_days_lem n (suc offset) ∙ rw off
        ]

-- The times of the days that are searched, from a time on.
abbrev pub searched_times : Calendar → ParsedCron → ℕ → List ℕ
searched_times cal cron start = all_times cal cron search_limit_days 0 (cal.day_of start)

search_from_lem :
    (cal : Calendar) (start : ℕ) (cron : ParsedCron)
    → search_from cal start (some cron) ≡ find? (leb start) (searched_times cal cron start)
unfolding search_from
search_from_lem cal start cron = try_days_lem cal cron start search_limit_days 0

next_cron-eq :
    (cal : Calendar) (expression : List ℕ) (from_ms : ℕ)
    → next_cron_fire_ms cal expression from_ms
      ≡ search_from cal (next_minute from_ms) (parse_cron expression)
unfolding next_cron_fire_ms
next_cron-eq cal expression from_ms = refl

next_cron-eq-find :
    (cal : Calendar) (expression : List ℕ) (from_ms : ℕ) (cron : ParsedCron)
    → parse_cron expression ≡ some cron
    → next_cron_fire_ms cal expression from_ms
      ≡ find? (leb (next_minute from_ms)) (searched_times cal cron (next_minute from_ms))
next_cron-eq-find cal expression from_ms cron e =
    next_cron-eq cal expression from_ms
    ∙ ap (search_from cal (next_minute from_ms)) e
    ∙ search_from_lem cal (next_minute from_ms) cron

next_minute-later : (from_ms : ℕ) → from_ms < next_minute from_ms
unfolding next_minute
next_minute-later from_ms = omega arith

-- The times never go back.
abbrev pub Ascending : List ℕ → Type 0
Ascending [] = Unit
Ascending (u ∷ us) = All (λ v. u ≤ v) us × Ascending us

-- The answer is the earliest of the times after `from_ms` from `start` on; none, if all are before.
abbrev pub IsEarliest : ℕ → ℕ → List ℕ → Option ℕ → Type 0
IsEarliest from_ms start us none = All (λ u. u < start) us
IsEarliest from_ms start us (some c) =
    (from_ms < c)
    × (start ≤ c)
    × (any (λ u. u == c) us ≡ true)
    × All (λ u. (u < start) ⊎ (c ≤ u)) us

weaken-All : {P Q : ℕ → Type 0} (us : List ℕ) → ((u : ℕ) → P u → Q u) → All P us → All Q us
weaken-All [] f h = tt
weaken-All (u ∷ us) f (p, h) = (f u p, weaken-All us f h)

find-IsEarliest :
    (from_ms start : ℕ) (us : List ℕ)
    → from_ms < start
    → Ascending us
    → IsEarliest from_ms start us (find? (leb start) us)
find-IsEarliest from_ms start [] l a = tt
find-IsEarliest from_ms start (u ∷ us) l (above, a) = elim (Bool-cases (leb start u)) [
  | inl found ↦ rw found (
    ground arith,
    ground arith,
    ground (arith, ==_iff u u),
    (inr (ground arith), weaken-All us (λ v h. inr h) above),
  )
  | inr early ↦ rw early (later early (find? (leb start) us) (find-IsEarliest from_ms start us l a))
]
  where
    later :
        leb start u ≡ false
        → (o : Option ℕ) → IsEarliest from_ms start us o
        → IsEarliest from_ms start (u ∷ us) o
    later early none h = (ground arith, h)
    later early (some c) (p, q, r, h) = (p, q, ground arith, (inl (ground arith), h))

-- For an expression that parses, on a calendar whose times of the searched days never go back, the
-- answer is the earliest time of the expression in the minutes after the given one; there is no
-- answer only if all times of the searched days are before that.
pub next_cron_fire_ms-IsEarliest :
    (cal : Calendar) (expression : List ℕ) (from_ms : ℕ) (cron : ParsedCron)
    → parse_cron expression ≡ some cron
    → Ascending (searched_times cal cron (next_minute from_ms))
    → IsEarliest from_ms
        (next_minute from_ms)
        (searched_times cal cron (next_minute from_ms))
        (next_cron_fire_ms cal expression from_ms)
next_cron_fire_ms-IsEarliest cal expression from_ms cron e steady =
    subst (IsEarliest from_ms (next_minute from_ms) (searched_times cal cron (next_minute from_ms)))
      (sym (next_cron-eq-find cal expression from_ms cron e))
      (find-IsEarliest from_ms (next_minute from_ms) (searched_times cal cron (next_minute from_ms))
        (next_minute-later from_ms) steady)
