-- ===== src/Tests/Heartbeat.antt =====
-- Runs of the heartbeat directory.
use tailii_host.Prelude.{
  ◌≡◌, refl, false, String, [], ◌∷◌, none, some, ◌==◌, string_eq, if◌then◌else◌,
}
use tailii_host.Heartbeat.{
  active, idle, HeartbeatScheduled, Heartbeat, HeartbeatWrite, keep, valid_session_name,
}
use tailii_host.Heartbeat.Codec.{parse_heartbeat, heartbeat_json, parse-heartbeat_json}
use tailii_host.Heartbeat.Store.{HeartbeatDir, read_heartbeat, write_heartbeat, written, bump_of}
use tailii_host.Heartbeat.Laws.{WriteOf, read-write}
use tailii_host.Prelude.Maps

abbrev reserved : HeartbeatScheduled
reserved = record {
  at_ts = 100;
  pid = some 7;
  session_id = none;
  one_shot_ts = 160 ∷ [];
  recurring = record { id = "loop"; first_seen_ts = 90 } ∷ [];
  unparsed = false;
}

abbrev stopped : Heartbeat
stopped = record {
  ts = 100;
  state = idle;
  event = some "Stop";
  since_ms = none;
  scheduled = some reserved;
}

parse-heartbeat_json_example : parse_heartbeat (heartbeat_json stopped) ≡ some stopped
parse-heartbeat_json_example = parse-heartbeat_json stopped

abbrev one_file : HeartbeatDir
one_file = ("cs-a", some (heartbeat_json stopped)) ∷ []

abbrev later_turn : HeartbeatWrite
later_turn = record {
  ts = 300;
  state = active;
  event = some "UserPromptSubmit";
  since_ms = some 300000;
  scheduled = keep;
}

abbrev turned_file : HeartbeatDir
turned_file = Maps.set "cs-a" (some (heartbeat_json (written one_file "cs-a" later_turn))) one_file

read-write_example :
    (after : Heartbeat) × (read_heartbeat turned_file "cs-a"
      ≡ (if ◌==◌ {A = String} "cs-a" "cs-a" then some after else read_heartbeat one_file "cs-a"))
    × WriteOf (read_heartbeat one_file "cs-a") later_turn after
unfolding write_heartbeat valid_session_name
read-write_example = read-write one_file "cs-a" "cs-a" later_turn turned_file refl

abbrev ticked_file : HeartbeatDir
ticked_file =
    Maps.set "cs-a"
      (some (
        heartbeat_json
          (written one_file "cs-a" (bump_of (read_heartbeat one_file "cs-a") 200 "tick" active))))
      one_file
