-- ===== src/Heartbeat/Codec.antt =====
-- The JSON of a heartbeat: the decoders `finiteTs`, `parseScheduled` and the checks of
-- `readHeartbeat`, and what `JSON.stringify` makes of a record. Reading gives back what was written.
use mathlib.Core.Option
use tailii_host.Prelude.{
  ℕ, ◌≡◌, refl, ap, Bool, String, List, [], ◌∷◌, ◌++◌, map, Option, none, some, ◌==◌, string_eq,
  if◌then◌else◌,
}
use tailii_host.Json.{
  Json, bool, num, str, arr, obj, end, field, property, items, of_list, as_string, as_finite,
  is_true, optional,
}
use tailii_host.Heartbeat.{
  HeartbeatState, active, idle, HeartbeatRecurring, HeartbeatScheduled, Heartbeat,
}

-- `raw["oneShotTs"].filter(finiteTs)`.
finite_only : List Json → List ℕ
finite_only [] = []
finite_only (num n ∷ vs) = n ∷ finite_only vs
finite_only (_ ∷ vs) = finite_only vs

one_shot_of : Option Json → List ℕ
one_shot_of (some (arr vs)) = finite_only (items vs)
one_shot_of _ = []

-- One element of `recurring`: `[]` for what is not an entry, else the entry alone.
recurring_entry : Option String → Option ℕ → List HeartbeatRecurring
recurring_entry (some id) (some seen) = record { id = id; first_seen_ts = seen } ∷ []
recurring_entry _ _ = []

recurring_entries : List Json → List HeartbeatRecurring
recurring_entries [] = []
recurring_entries (v ∷ vs) =
    recurring_entry (as_string (property "id" v)) (as_finite (property "firstSeenTs" v))
    ++ recurring_entries vs

recurring_of : Option Json → List HeartbeatRecurring
recurring_of (some (arr vs)) = recurring_entries (items vs)
recurring_of _ = []

scheduled_of_at : Json → Option ℕ → Option HeartbeatScheduled
scheduled_of_at raw none = none
scheduled_of_at raw (some at_ts) = some (record {
  at_ts = at_ts;
  pid = as_finite (property "pid" raw);
  session_id = as_string (property "sessionId" raw);
  one_shot_ts = one_shot_of (property "oneShotTs" raw);
  recurring = recurring_of (property "recurring" raw);
  unparsed = is_true (property "unparsed" raw);
})

-- `parseScheduled`.
unfoldable pub parse_scheduled : Option Json → Option HeartbeatScheduled
unfolding scheduled_of_at one_shot_of recurring_of finite_only recurring_entries recurring_entry
parse_scheduled (some (obj fields)) =
    scheduled_of_at (obj fields) (as_finite (property "atTs" (obj fields)))
parse_scheduled _ = none

-- `parsed.state`, if it is one of the two.
unfoldable pub parse_state : Option Json → Option HeartbeatState
parse_state (some (str s)) =
    if s == "active" then some active else if s == "idle" then some idle else none
parse_state _ = none

heartbeat_of : Json → Option ℕ → Option HeartbeatState → Option Heartbeat
heartbeat_of raw (some ts) (some state) = some (record {
  ts = ts;
  state = state;
  event = as_string (property "event" raw);
  since_ms = as_finite (property "sinceMs" raw);
  scheduled = parse_scheduled (property "scheduled" raw);
})
heartbeat_of raw _ _ = none

-- The checks of `readHeartbeat` on a parsed text. (`null.ts` throws and is caught: `none` as well.)
unfoldable pub parse_heartbeat : Json → Option Heartbeat
unfolding heartbeat_of
parse_heartbeat raw =
    heartbeat_of raw (as_finite (property "ts" raw)) (parse_state (property "state" raw))

-- `JSON.stringify` of the records, key by key.
unfoldable pub state_text : HeartbeatState → String
state_text active = "active"
state_text idle = "idle"

recurring_json : HeartbeatRecurring → Json
recurring_json r = obj (field "id" (str r.id) (field "firstSeenTs" (num r.first_seen_ts) end))

unfoldable pub scheduled_json : HeartbeatScheduled → Json
unfolding recurring_json
scheduled_json s = obj (
    field "atTs" (num s.at_ts) (
      optional "pid" (Option.map num s.pid) (
        optional "sessionId" (Option.map str s.session_id) (
          field "oneShotTs" (arr (of_list (map num s.one_shot_ts))) (
            field "recurring" (arr (of_list (map recurring_json s.recurring)))
              (field "unparsed" (bool s.unparsed) end))))))

unfoldable pub heartbeat_json : Heartbeat → Json
heartbeat_json h = obj (
    field "ts" (num h.ts) (
      field "state" (str (state_text h.state)) (
        optional "event" (Option.map str h.event) (
          optional "sinceMs" (Option.map num h.since_ms)
            (optional "scheduled" (Option.map scheduled_json h.scheduled) end)))))

-- All that reading and writing compute with.
unfoldable pub codec : Unit {0}
unfolding parse_heartbeat heartbeat_json parse_state parse_scheduled state_text scheduled_json
codec = tt

finite_only_lem : (ns : List ℕ) → finite_only (items (of_list (map num ns))) ≡ ns
unfolding finite_only
finite_only_lem [] = refl
finite_only_lem (n ∷ ns) = ap (λ t. n ∷ t) (finite_only_lem ns)

recurring_entries_lem :
    (rs : List HeartbeatRecurring)
    → recurring_entries (items (of_list (map recurring_json rs))) ≡ rs
unfolding recurring_entries recurring_entry recurring_json
recurring_entries_lem [] = refl
recurring_entries_lem (r ∷ rs) = ap (λ t. r ∷ t) (recurring_entries_lem rs)

-- Field by field, for each choice of the properties that may be missing.
scheduled_fields :
    (at_ts : ℕ) (pid : Option ℕ) (session_id : Option String) (shots : List ℕ)
    (rs : List HeartbeatRecurring) (unparsed : Bool)
    → let s : HeartbeatScheduled = record {
      at_ts = at_ts;
      pid = pid;
      session_id = session_id;
      one_shot_ts = shots;
      recurring = rs;
      unparsed = unparsed;
    } in
      parse_scheduled (some (scheduled_json s)) ≡ some s
unfolding parse_scheduled scheduled_json
scheduled_fields at_ts none none shots rs u = rw (finite_only_lem shots, recurring_entries_lem rs)
scheduled_fields at_ts none (some i) shots rs u =
    rw (finite_only_lem shots, recurring_entries_lem rs)
scheduled_fields at_ts (some p) none shots rs u =
    rw (finite_only_lem shots, recurring_entries_lem rs)
scheduled_fields at_ts (some p) (some i) shots rs u =
    rw (finite_only_lem shots, recurring_entries_lem rs)

scheduled_round_trip : (s : HeartbeatScheduled) → parse_scheduled (some (scheduled_json s)) ≡ some s
scheduled_round_trip s =
    scheduled_fields s.at_ts s.pid s.session_id s.one_shot_ts s.recurring s.unparsed

state_round_trip : (s : HeartbeatState) → parse_state (some (str (state_text s))) ≡ some s
unfolding parse_state state_text
state_round_trip active = refl
state_round_trip idle = refl

heartbeat_fields :
    (ts : ℕ) (state : HeartbeatState) (event : Option String) (since : Option ℕ)
    (scheduled : Option HeartbeatScheduled)
    → let h : Heartbeat = record {
      ts = ts;
      state = state;
      event = event;
      since_ms = since;
      scheduled = scheduled;
    } in
      parse_heartbeat (heartbeat_json h) ≡ some h
unfolding heartbeat_json parse_heartbeat
heartbeat_fields ts state none none none = unfold parse_scheduled in rw (state_round_trip state)
heartbeat_fields ts state none none (some s) = rw (state_round_trip state, scheduled_round_trip s)
heartbeat_fields ts state none (some c) none = unfold parse_scheduled in rw (state_round_trip state)
heartbeat_fields ts state none (some c) (some s) =
    rw (state_round_trip state, scheduled_round_trip s)
heartbeat_fields ts state (some e) none none = unfold parse_scheduled in rw (state_round_trip state)
heartbeat_fields ts state (some e) none (some s) =
    rw (state_round_trip state, scheduled_round_trip s)
heartbeat_fields ts state (some e) (some c) none =
    unfold parse_scheduled in rw (state_round_trip state)
heartbeat_fields ts state (some e) (some c) (some s) =
    rw (state_round_trip state, scheduled_round_trip s)

-- Reading a heartbeat's JSON gives back the heartbeat that was written, with every property that
-- may be missing.
pub parse-heartbeat_json : (h : Heartbeat) → parse_heartbeat (heartbeat_json h) ≡ some h
parse-heartbeat_json h = heartbeat_fields h.ts h.state h.event h.since_ms h.scheduled
