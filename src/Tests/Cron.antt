-- ===== src/Tests/Cron.antt =====
-- Runs of the cron search and of the reservations of a Stop hook.
use tailii_host.Prelude.{
  ℕ, ◌+◌, ◌*◌, ◌/◌, ◌≡◌, ◌↔◌, refl, true, false, List, [], ◌∷◌, Option, none, some, All, arith,
}
use tailii_host.Prelude.Text.{codes}
use tailii_host.Json.{Json, bool, str, arr, obj, end, field, of_list}
use tailii_host.Heartbeat.{HeartbeatScheduled}
use tailii_host.Reaper.Schedule.{scheduled_pending}
use tailii_host.Cron.{split, parse_field, allows, CronField}
use tailii_host.Cron.Search.{
  Calendar, day_matches, ParsedCron, parse_cron, next_minute, next_cron_fire_ms,
}
use tailii_host.Cron.Earliest.{searched_times, IsEarliest, next_cron_fire_ms-IsEarliest}
use tailii_host.Cron.Allowed.{PartsCover, parse_field-allows}
use tailii_host.Cron.Stop.{ScheduledFromCronsOptions, scheduled_from_session_crons}
use tailii_host.Cron.Renewal.{CountsFrom, recurring_not_renewed}
use tailii_host.Cron.Bounds.{stop_protection_ends}

-- A calendar of one endless January.
abbrev january : Calendar
january = record {
  day_of = λ ms. record { year = 2026; month = 0; date = ms / 86400000; weekday = 4 };
  days_later = λ day n. record { year = 2026; month = 0; date = day.date + n; weekday = 4 };
  time_at = λ day hour minute. (day.date * 24 + hour) * 3600000 + minute * 60000;
}

daily_at_nine : next_cron_fire_ms january (codes "0 9 * * *") 1000 ≡ some 118800000
unfolding next_cron_fire_ms
daily_at_nine = refl

too_many_fields : next_cron_fire_ms january (codes "0 9 * * * *") 1000 ≡ none
unfolding next_cron_fire_ms
too_many_fields = refl

-- Nine on the second.
abbrev second_at_nine : List ℕ
second_at_nine = codes "0 9 2 jan *"

abbrev parsed : Option ParsedCron → ParsedCron
parsed (some cron) = cron
parsed none = record {
  minute = nothing;
  hour = nothing;
  day_of_month = nothing;
  month = nothing;
  day_of_week = nothing;
}
  where
    nothing : CronField
    nothing = record { allowed = []; wildcard = false }

next_cron_fire_ms-IsEarliest_example :
    IsEarliest 1000
      (next_minute 1000)
      (searched_times january (parsed (parse_cron second_at_nine)) (next_minute 1000))
      (next_cron_fire_ms january second_at_nine 1000)
unfolding parse_cron next_minute day_matches
next_cron_fire_ms-IsEarliest_example =
    next_cron_fire_ms-IsEarliest january second_at_nine 1000 (parsed (parse_cron second_at_nine))
      refl (tt, tt)

abbrev reported : Json
reported = arr (
    of_list (
      obj (field "id" (str "loop") (field "schedule" (str "*/5 * * * *") end))
      ∷ obj (
          field "id" (str "once")
            (field "recurring" (bool false) (field "schedule" (str "0 9 2 jan *") end)))
      ∷ []))

abbrev first_stop : ScheduledFromCronsOptions
first_stop = record { pid = some 7; session_id = none; previous = none }

abbrev recorded : HeartbeatScheduled
recorded = record {
  at_ts = 1;
  pid = some 7;
  session_id = none;
  one_shot_ts = 205200 ∷ [];
  recurring = record { id = "loop"; first_seen_ts = 1 } ∷ [];
  unparsed = false;
}

stop_is_recorded : scheduled_from_session_crons january reported 1000 first_stop ≡ some recorded
unfolding scheduled_from_session_crons next_cron_fire_ms
stop_is_recorded = refl

stop_protection_ends_example : scheduled_pending recorded 607201 ≡ false
stop_protection_ends_example =
    stop_protection_ends january reported 1000 607201 first_stop recorded tt stop_is_recorded
      (omega arith)

-- The same reservations at a Stop of the same process an hour later.
abbrev second_stop : ScheduledFromCronsOptions
second_stop = record { pid = some 7; session_id = some "u"; previous = some recorded }

abbrev recorded_again : HeartbeatScheduled
recorded_again = record recorded { at_ts = 3601; session_id = some "u" }

second_stop_is_recorded :
    scheduled_from_session_crons january reported 3601000 second_stop ≡ some recorded_again
unfolding scheduled_from_session_crons next_cron_fire_ms
second_stop_is_recorded = refl

recurring_not_renewed_example :
    All (CountsFrom second_stop (3601000 / 1000) second_stop.previous) recorded_again.recurring
recurring_not_renewed_example =
    recurring_not_renewed january reported 3601000 second_stop recorded_again
      second_stop_is_recorded

-- The first to the fifth minute, and every twentieth.
abbrev some_minutes : List ℕ
some_minutes = codes "1-5,*/20"

abbrev minutes_field : CronField
minutes_field = field_or_empty (parse_field some_minutes 0 59 [] 0)
  where
    field_or_empty : Option CronField → CronField
    field_or_empty (some f) = f
    field_or_empty none = record { allowed = []; wildcard = false }

forty_is_allowed : allows minutes_field.allowed 40 ≡ true
unfolding parse_field allows
forty_is_allowed = refl

parse_field-allows_example :
    (allows minutes_field.allowed 40 ≡ true)
    ↔ PartsCover ((split 44 some_minutes).0 ∷ (split 44 some_minutes).1) 0 59 [] 0 40
unfolding parse_field
parse_field-allows_example =
    parse_field-allows 0 59 [] 0 (omega arith) some_minutes minutes_field 40 refl
