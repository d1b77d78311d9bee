-- ===== src/Cron/Stop.antt =====
-- `scheduledFromSessionCrons` of src/sessions/cronSchedule.ts: the reservations that a Stop hook reports
-- become those of the heartbeat.
use tailii_host.Prelude.{
  ℕ, ◌/◌, Bool, true, false, not, ◌&&◌, String, List, [], ◌∷◌, Option, none, some, ◌==◌, nat_eq,
  string_eq, if◌then◌else◌, find?, length, or_else,
}
use tailii_host.Prelude.Text.{codes}
use tailii_host.Json.{Json, bool, arr, obj, items, property, as_string}
use tailii_host.Heartbeat.{HeartbeatRecurring, HeartbeatScheduled}
use tailii_host.Cron.Search.{Calendar, next_cron_fire_ms}

-- `ScheduledFromCronsOptions`.
pub record ScheduledFromCronsOptions : Type 0 where
  pub pid : Option ℕ
  pub session_id : Option String
  pub previous : Option HeartbeatScheduled

-- `a === b` for texts that may be missing.
unfoldable pub same_text : Option String → Option String → Bool
same_text none none = true
same_text (some a) (some b) = a == b
same_text _ _ = false

-- `sameOwner`.
unfoldable pub same_owner : HeartbeatScheduled → ScheduledFromCronsOptions → Bool
unfolding same_text
same_owner previous current = owner previous.pid current.pid
  where
    owner : Option ℕ → Option ℕ → Bool
    owner (some a) (some b) = a == b
    owner _ _ = same_text previous.session_id current.session_id

-- The record before, if it has the same owner.
unfoldable pub previous_of : ScheduledFromCronsOptions → Option HeartbeatScheduled
unfolding same_owner
previous_of options = elim options.previous [
  | none ↦ none
  | some previous ↦ if same_owner previous options then some previous else none
]

-- What the loop collects.
pub record Collected : Type 0 where
  pub one_shot_ts : List ℕ
  pub recurring : List HeartbeatRecurring
  pub unparsed : Bool

-- `cron["recurring"] !== false`.
unfoldable pub is_recurring : Option Json → Bool
is_recurring (some (bool false)) = false
is_recurring _ = true

abbrev pub first_seen_of : Option HeartbeatRecurring → Option ℕ
first_seen_of none = none
first_seen_of (some entry) = some entry.first_seen_ts

-- `known?.firstSeenTs ?? nowTs`; an empty id is never known.
unfoldable pub first_seen : Option HeartbeatScheduled → String → ℕ → ℕ
first_seen none id now_ts = now_ts
first_seen (some previous) id now_ts =
    if id == ""
    then now_ts
    else or_else (first_seen_of (find? (λ entry. entry.id == id) previous.recurring)) now_ts

-- The time that a one-shot reservation goes off.
unfoldable pub fire_ms_of : Calendar → Option String → ℕ → Option ℕ
fire_ms_of cal none now_ms = none
fire_ms_of cal (some schedule) now_ms = next_cron_fire_ms cal (codes schedule) now_ms

unfoldable pub add_one_shot : Option ℕ → Collected → Collected
add_one_shot none c = record c { unparsed = true }
add_one_shot (some fire_ms) c = record c { one_shot_ts = fire_ms / 1000 ∷ c.one_shot_ts }

unfoldable pub add_recurring : Option HeartbeatScheduled → String → ℕ → Collected → Collected
unfolding first_seen
add_recurring previous id now_ts c = record c {
  recurring = record { id = id; first_seen_ts = first_seen previous id now_ts } ∷ c.recurring;
}

-- `typeof item !== "object" || item === null`, the other way round.
abbrev pub is_object : Json → Bool
is_object (obj _) = true
is_object (arr _) = true
is_object _ = false

-- One round of the loop over `session_crons`.
unfoldable pub collect_item :
    Calendar → Option HeartbeatScheduled → ℕ → Json → Collected → Collected
unfolding is_recurring add_recurring add_one_shot fire_ms_of
collect_item cal previous now_ms item rest =
    if not (is_object item)
    then rest
    else if is_recurring (property "recurring" item)
    then add_recurring previous (or_else (as_string (property "id" item)) "") (now_ms / 1000) rest
    else add_one_shot (fire_ms_of cal (as_string (property "schedule" item)) now_ms) rest

-- The loop. What later items give is collected first, and each item goes in front.
unfoldable pub collect : Calendar → Option HeartbeatScheduled → ℕ → List Json → Collected
unfolding collect_item
collect cal previous now_ms [] = record { one_shot_ts = []; recurring = []; unparsed = false }
collect cal previous now_ms (item ∷ values) =
    collect_item cal previous now_ms item (collect cal previous now_ms values)

-- No reservation: no record.
unfoldable pub scheduled_of : ℕ → ScheduledFromCronsOptions → Collected → Option HeartbeatScheduled
scheduled_of now_ts options c =
    if length c.recurring == 0 && not c.unparsed && length c.one_shot_ts == 0
    then none
    else some (record {
      at_ts = now_ts;
      pid = options.pid;
      session_id = options.session_id;
      one_shot_ts = c.one_shot_ts;
      recurring = c.recurring;
      unparsed = c.unparsed;
    })

-- `scheduledFromSessionCrons`; `none` is the result `null`.
unfoldable pub scheduled_from_session_crons :
    Calendar → Json → ℕ → ScheduledFromCronsOptions → Option HeartbeatScheduled
unfolding collect previous_of scheduled_of
scheduled_from_session_crons cal (arr values) now_ms options =
    scheduled_of (now_ms / 1000) options (collect cal (previous_of options) now_ms (items values))
scheduled_from_session_crons cal _ now_ms options = none
