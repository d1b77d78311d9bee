-- ===== src/Heartbeat/Laws.antt =====
-- The directory of heartbeats behaves like a map from session names to records.
use tailii_host.Prelude.{
  ℕ, ◌≡◌, refl, ◌∙◌, true, false, String, Option, none, some, ◌==◌, string_eq, if◌then◌else◌, arith,
  Bool-cases, Option-cases, inl, inr, ==_iff,
}
use tailii_host.Prelude.Maps
use tailii_host.Heartbeat.{
  HeartbeatState, Heartbeat, HeartbeatWrite, ScheduledWrite, keep, clear, replace,
  HeartbeatScheduled, valid_session_name,
}
use tailii_host.Json.{Json}
use tailii_host.Heartbeat.Codec.{heartbeat_json, parse-heartbeat_json}
use tailii_host.Heartbeat.Store.{
  HeartbeatDir, read_heartbeat, scheduled_in, merge_scheduled, written, parse_file, write_heartbeat,
  state_or, since_in, bump_of, bump_heartbeat, remove_heartbeat,
}

-- What a write that does not throw does.
write_inversion :
    (dir : HeartbeatDir) (session : String) (w : HeartbeatWrite) (next : HeartbeatDir)
    → write_heartbeat dir session w ≡ some next
    → (valid_session_name session ≡ true)
      × (next ≡ Maps.set session (some (heartbeat_json (written dir session w))) dir)
unfolding write_heartbeat
write_inversion dir session w next h = ground arith

read_of_set_self :
    (dir : HeartbeatDir) (session : String) (r : Heartbeat)
    → valid_session_name session ≡ true
    → read_heartbeat (Maps.set session (some (heartbeat_json r)) dir) session ≡ some r
unfolding read_heartbeat
read_of_set_self dir session r valid =
    rw (valid, Maps.get-set_self session (some (heartbeat_json r)) dir, parse_file)
      (parse-heartbeat_json r)

read_of_set_ne :
    (dir : HeartbeatDir) (session other : String) (file : Option Json)
    → (session == other) ≡ false
    → read_heartbeat (Maps.set session file dir) other ≡ read_heartbeat dir other
unfolding read_heartbeat
read_of_set_ne dir session other file ne = rw (Maps.get-set_ne session other file dir ne)

read_of_write :
    (dir : HeartbeatDir) (session other : String) (w : HeartbeatWrite) (next : HeartbeatDir)
    → write_heartbeat dir session w ≡ some next
    → read_heartbeat next other
      ≡ (if session == other then some (written dir session w) else read_heartbeat dir other)
read_of_write dir session other w next h =
    let (valid, e) = write_inversion dir session w next h in
    elim (Bool-cases (session == other)) [
      | inl same ↦
          let eq : session ≡ other = (==_iff session other).0 same in
          rw (e, same) (rw (← eq) (read_of_set_self dir session (written dir session w) valid))
      | inr ne ↦ rw (e, ne) (read_of_set_ne dir session other _ ne)
    ]

-- The schedule after a write that says nothing of it is the one of the record before; one that is
-- given as null is dropped; and any other is taken.
abbrev pub ScheduleAfter : ScheduledWrite → Option Heartbeat → Option HeartbeatScheduled → Type 0
ScheduleAfter keep none after = after ≡ none
ScheduleAfter keep (some before) after = after ≡ before.scheduled
ScheduleAfter clear before after = after ≡ none
ScheduleAfter (replace s) before after = after ≡ some s

-- What a write makes of the record before it.
pub record WriteOf (before : Option Heartbeat) (w : HeartbeatWrite) (after : Heartbeat)
    : Type 0 where
  pub same_ts : after.ts ≡ w.ts
  pub same_state : after.state ≡ w.state
  pub same_event : after.event ≡ w.event
  pub same_since : after.since_ms ≡ w.since_ms
  pub schedule : ScheduleAfter w.scheduled before after.scheduled

merge_scheduled-ScheduleAfter :
    (s : ScheduledWrite) (before : Option Heartbeat)
    → ScheduleAfter s before (merge_scheduled s (scheduled_in before))
merge_scheduled-ScheduleAfter keep none = refl
merge_scheduled-ScheduleAfter keep (some h) = refl
merge_scheduled-ScheduleAfter clear before = refl
merge_scheduled-ScheduleAfter (replace s) before = refl

written-WriteOf :
    (dir : HeartbeatDir) (session : String) (w : HeartbeatWrite)
    → WriteOf (read_heartbeat dir session) w (written dir session w)
unfolding written
written-WriteOf dir session w = record {
  same_ts = refl;
  same_state = refl;
  same_event = refl;
  same_since = refl;
  schedule = merge_scheduled-ScheduleAfter w.scheduled (read_heartbeat dir session);
}

-- After a write that does not throw, the record read under its name has the time, the state, the
-- event and the start of the turn of the write; its schedule is that of the record read before if
-- the write says nothing of it, none if the write clears it, and else the one that the write gives.
-- What is read under every other name is as before.
pub read-write :
    (dir : HeartbeatDir) (session other : String) (w : HeartbeatWrite) (next : HeartbeatDir)
    → write_heartbeat dir session w ≡ some next
    → (after : Heartbeat) × (read_heartbeat next other
        ≡ (if session == other then some after else read_heartbeat dir other))
      × WriteOf (read_heartbeat dir session) w after
read-write dir session other w next h =
    (written dir session w, read_of_write dir session other w next h, written-WriteOf dir session w)

-- What a bump leaves of the record that was there: all but the time and the event.
abbrev pub bumped : Option Heartbeat → ℕ → String → HeartbeatState → Heartbeat
bumped existing now event fallback = record {
  ts = now;
  state = state_or existing fallback;
  event = some event;
  since_ms = since_in existing;
  scheduled = scheduled_in existing;
}

written-bump :
    (dir : HeartbeatDir) (session : String) (now : ℕ) (event : String) (fallback : HeartbeatState)
    → (existing : Option Heartbeat)
    → written dir session (bump_of existing now event fallback) ≡ bumped existing now event fallback
unfolding written
written-bump dir session now event fallback none = refl
written-bump dir session now event fallback (some h) = elim (Option-cases h.scheduled) [
  | inl e ↦ rw e
  | inr (s, e) ↦ rw e
]

pub read-bump :
    (dir : HeartbeatDir) (session other : String) (now : ℕ) (event : String)
    (fallback : HeartbeatState) (next : HeartbeatDir)
    → bump_heartbeat dir session now event fallback ≡ some next
    → read_heartbeat next other ≡ (
        if session == other
        then some (bumped (read_heartbeat dir session) now event fallback)
        else read_heartbeat dir other)
unfolding bump_heartbeat
read-bump dir session other now event fallback next h =
    read_of_write dir session other (bump_of (read_heartbeat dir session) now event fallback) next h
    ∙ rw (written-bump dir session now event fallback (read_heartbeat dir session))

-- After a removal there is no record under the name, and every other name is as before.
pub read-remove :
    (dir : HeartbeatDir) (session other : String)
    → read_heartbeat (remove_heartbeat dir session) other
      ≡ (if session == other then none else read_heartbeat dir other)
unfolding read_heartbeat remove_heartbeat
read-remove dir session other =
    ground (arith, Maps.get-delete session other dir, ==_iff session other)
