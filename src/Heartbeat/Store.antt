-- ===== src/Heartbeat/Store.antt =====
-- The heartbeat directory: `readHeartbeat`, `writeHeartbeat`, `bumpHeartbeat`, `removeHeartbeat` and
-- `listHeartbeatSessions`. A write gives `none` where `validateSessionName` throws.
use tailii_host.Prelude.{ℕ, not, String, List, Option, none, some, string_eq, if◌then◌else◌, filter}
use tailii_host.Prelude.Maps
use tailii_host.Prelude.Text.{codes, includes, sort}
use tailii_host.Json.{Json}
use tailii_host.Heartbeat.{
  HeartbeatState, HeartbeatScheduled, Heartbeat, HeartbeatWrite, ScheduledWrite, keep, clear,
  replace, valid_session_name,
}
use tailii_host.Heartbeat.Codec.{parse_heartbeat, heartbeat_json}

-- The directory: a file for each name, and in it the value of its text, if it is JSON.
abbrev pub HeartbeatDir : Type 0
HeartbeatDir = List (String × Option Json)

unfoldable pub parse_file : Option (Option Json) → Option Heartbeat
parse_file (some (some raw)) = parse_heartbeat raw
parse_file _ = none

unfoldable pub read_heartbeat : HeartbeatDir → String → Option Heartbeat
unfolding parse_file
read_heartbeat dir session =
    if valid_session_name session then parse_file (Maps.get session dir) else none

-- `readHeartbeat(dir, session)?.scheduled`.
abbrev pub scheduled_in : Option Heartbeat → Option HeartbeatScheduled
scheduled_in none = none
scheduled_in (some h) = h.scheduled

-- The `scheduled` that a write leaves, over the one on disk.
abbrev pub merge_scheduled : ScheduledWrite → Option HeartbeatScheduled → Option HeartbeatScheduled
merge_scheduled keep existing = existing
merge_scheduled clear existing = none
merge_scheduled (replace s) existing = some s

-- The record that a write leaves.
unfoldable pub written : HeartbeatDir → String → HeartbeatWrite → Heartbeat
written dir session w = record {
  ts = w.ts;
  state = w.state;
  event = w.event;
  since_ms = w.since_ms;
  scheduled = merge_scheduled w.scheduled (scheduled_in (read_heartbeat dir session));
}

unfoldable pub write_heartbeat : HeartbeatDir → String → HeartbeatWrite → Option HeartbeatDir
unfolding written
write_heartbeat dir session w =
    if valid_session_name session
    then some (Maps.set session (some (heartbeat_json (written dir session w))) dir)
    else none

-- `existing?.state ?? fallbackState`.
abbrev pub state_or : Option Heartbeat → HeartbeatState → HeartbeatState
state_or none fallback = fallback
state_or (some h) fallback = h.state

abbrev pub since_in : Option Heartbeat → Option ℕ
since_in none = none
since_in (some h) = h.since_ms

-- `existing?.scheduled ?? null`.
abbrev pub scheduled_or_null : Option HeartbeatScheduled → ScheduledWrite
scheduled_or_null none = clear
scheduled_or_null (some s) = replace s

-- The write that a bump makes over what it read.
abbrev pub bump_of : Option Heartbeat → ℕ → String → HeartbeatState → HeartbeatWrite
bump_of existing now event fallback = record {
  ts = now;
  state = state_or existing fallback;
  event = some event;
  since_ms = since_in existing;
  scheduled = scheduled_or_null (scheduled_in existing);
}

unfoldable pub bump_heartbeat :
    HeartbeatDir → String → ℕ → String → HeartbeatState → Option HeartbeatDir
unfolding write_heartbeat
bump_heartbeat dir session now event fallback =
    write_heartbeat dir session (bump_of (read_heartbeat dir session) now event fallback)

unfoldable pub remove_heartbeat : HeartbeatDir → String → HeartbeatDir
remove_heartbeat dir session = if valid_session_name session then Maps.delete session dir else dir

unfoldable pub list_heartbeat_sessions : HeartbeatDir → List String
list_heartbeat_sessions dir =
    sort (filter (λ name. not (includes (codes ".tmp-") (codes name))) (Maps.keys dir))
