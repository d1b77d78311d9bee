-- ===== src/Cron/Search.antt =====
-- src/sessions/cronSchedule.ts: the five fields, and the search for the next time. JavaScript's `Date` in the
-- local time zone is a parameter: the date and weekday of a time, the day a number of days later,
-- and the time of an hour and a minute of a day.
use tailii_host.Prelude.{
  ℕ, zero, suc, ◌+◌, ◌*◌, ◌/◌, Bool, false, not, ◌&&◌, ◌||◌, String, List, [], ◌∷◌, Option, none,
  some, ◌==◌, nat_eq, if◌then◌else◌, leb, any,
}
use tailii_host.Cron.{CronField, allows, allow, parse_field}

-- `MONTH_NAMES` and `DOW_NAMES`.
abbrev month_names : List String
month_names =
    "jan" ∷ "feb" ∷ "mar" ∷ "apr" ∷ "may" ∷ "jun" ∷ "jul" ∷ "aug" ∷ "sep" ∷ "oct" ∷ "nov" ∷ "dec"
    ∷ []

abbrev dow_names : List String
dow_names = "sun" ∷ "mon" ∷ "tue" ∷ "wed" ∷ "thu" ∷ "fri" ∷ "sat" ∷ []

-- `\s`.
is_space : ℕ → Bool
is_space c =
    leb 9 c && leb c 13
    || leb 8192 c && leb c 8202
    || any (λ k. k == c) (32 ∷ 160 ∷ 5760 ∷ 8232 ∷ 8233 ∷ 8239 ∷ 8287 ∷ 12288 ∷ 65279 ∷ [])

-- The word that a text begins with, and the words after its first blank. `trim().split(/\s+/)`
-- gives the words that are not empty (and one empty text of a text of blanks).
split_words : List ℕ → List ℕ × List (List ℕ)
unfolding is_space
split_words [] = ([], [])
split_words (c ∷ cs) =
    let (word, words) = split_words cs in
    if is_space c then ([], put_word word words) else (c ∷ word, words)
  where
    put_word : List ℕ → List (List ℕ) → List (List ℕ)
    put_word [] words = words
    put_word (x ∷ xs) words = (x ∷ xs) ∷ words

unfoldable pub words_of : List ℕ → List (List ℕ)
unfolding split_words
words_of text = elim (split_words text).0 [
  | [] ↦ (split_words text).1
  | x ∷ xs ↦ (x ∷ xs) ∷ (split_words text).1
]

-- `ParsedCron`.
pub record ParsedCron : Type 0 where
  pub minute : CronField
  pub hour : CronField
  pub day_of_month : CronField
  pub month : CronField
  pub day_of_week : CronField

-- `if (dayOfWeek.allowed[7] === true) dayOfWeek.allowed[0] = true`.
sunday_twice : CronField → CronField
unfolding allows allow
sunday_twice f = if allows f.allowed 7 then record f { allowed = allow f.allowed 0 } else f

cron_of :
    Option CronField
    → Option CronField
    → Option CronField
    → Option CronField
    → Option CronField
    → Option ParsedCron
unfolding sunday_twice
cron_of (some minute) (some hour) (some dom) (some month) (some dow) = some (record {
  minute = minute;
  hour = hour;
  day_of_month = dom;
  month = month;
  day_of_week = sunday_twice dow;
})
cron_of _ _ _ _ _ = none

cron_of_words : List (List ℕ) → Option ParsedCron
unfolding cron_of parse_field
cron_of_words (m ∷ h ∷ dom ∷ mon ∷ dow ∷ []) =
    cron_of (parse_field m 0 59 [] 0) (parse_field h 0 23 [] 0) (parse_field dom 1 31 [] 0)
      (parse_field mon 1 12 month_names 1) (parse_field dow 0 7 dow_names 0)
cron_of_words _ = none

-- `parseCron`.
unfoldable pub parse_cron : List ℕ → Option ParsedCron
unfolding cron_of_words words_of
parse_cron expression = cron_of_words (words_of expression)

-- What is used of a local `Date` at midnight; `month` counts from 0.
pub record Day : Type 0 where
  pub year : ℕ
  pub month : ℕ
  pub date : ℕ
  pub weekday : ℕ

-- `Date` in the local time zone.
pub record Calendar : Type 0 where
  -- The day of a time.
  pub day_of : ℕ → Day
  -- `new Date(year, month, date + n)`.
  pub days_later : Day → ℕ → Day
  -- `new Date(year, month, date, hour, minute).getTime()`.
  pub time_at : Day → ℕ → ℕ → ℕ

-- `dayMatches`.
unfoldable pub day_matches : ParsedCron → Day → Bool
unfolding allows
day_matches cron day =
    if not (allows cron.month.allowed (day.month + 1))
    then false
    else if cron.day_of_month.wildcard || cron.day_of_week.wildcard
    then allows cron.day_of_month.allowed day.date && allows cron.day_of_week.allowed day.weekday
    else allows cron.day_of_month.allowed day.date || allows cron.day_of_week.allowed day.weekday

abbrev pub search_limit_days : ℕ
search_limit_days = 1500

abbrev pub minute_ms : ℕ
minute_ms = 60000

-- The three loops; the first number counts the rounds left.
module _ (cal : Calendar) (cron : ParsedCron) (start : ℕ) where
  unfoldable pub try_minutes : ℕ → ℕ → Day → ℕ → Option ℕ
  unfolding allows
  try_minutes zero minute day hour = none
  try_minutes (suc n) minute day hour =
      let rest = try_minutes n (suc minute) day hour in
      if not (allows cron.minute.allowed minute)
      then rest
      else if leb start (cal.time_at day hour minute)
      then some (cal.time_at day hour minute)
      else rest

  unfoldable pub try_hours : ℕ → ℕ → Day → Option ℕ
  unfolding try_minutes allows
  try_hours zero hour day = none
  try_hours (suc n) hour day =
      let rest = try_hours n (suc hour) day in
      if not (allows cron.hour.allowed hour)
      then rest
      else elim (try_minutes 60 0 day hour) [ some fire_ms ↦ some fire_ms | none ↦ rest ]

  unfoldable pub try_days : ℕ → ℕ → Option ℕ
  unfolding try_hours day_matches
  try_days zero offset = none
  try_days (suc n) offset =
      let rest = try_days n (suc offset) in
      let day = cal.days_later (cal.day_of start) offset in
      if not (day_matches cron day)
      then rest
      else elim (try_hours 24 0 day) [ some fire_ms ↦ some fire_ms | none ↦ rest ]

-- `Math.floor(fromMs / MINUTE_MS) * MINUTE_MS + MINUTE_MS`.
unfoldable pub next_minute : ℕ → ℕ
next_minute from_ms = from_ms / minute_ms * minute_ms + minute_ms

-- The search for a parsed expression.
unfoldable pub search_from : Calendar → ℕ → Option ParsedCron → Option ℕ
unfolding try_days
search_from cal start none = none
search_from cal start (some cron) = try_days cal cron start search_limit_days 0

-- `nextCronFireMs`.
unfoldable pub next_cron_fire_ms : Calendar → List ℕ → ℕ → Option ℕ
unfolding parse_cron search_from next_minute
next_cron_fire_ms cal expression from_ms =
    search_from cal (next_minute from_ms) (parse_cron expression)
