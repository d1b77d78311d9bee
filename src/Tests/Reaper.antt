-- ===== src/Tests/Reaper.antt =====
-- Runs of the sweep.
use tailii_host.Prelude.{
  ℕ, ◌≡◌, inr, refl, ◌↔◌, ◌≢◌, ◌⊎◌, ◌++◌, true, false, String, [], ◌∷◌, none, some, arith, is_some,
  all, ◌&&◌, not, if◌then◌else◌,
}
use tailii_host.Prelude.Maps
use tailii_host.Prelude.Text.{codes, is_prefix, includes, has_name, sort, insert_sorted}
use tailii_host.Heartbeat.{idle, HeartbeatScheduled, Heartbeat, valid_session_name}
use tailii_host.Heartbeat.Codec.{heartbeat_json, codec}
use tailii_host.Heartbeat.Store.{
  list_heartbeat_sessions, read_heartbeat, bump_heartbeat, write_heartbeat, remove_heartbeat,
}
use tailii_host.LocalServers.{
  belongs, out_of_fuel, shares_terminal, process_belongs_to_pane, is_agent_listener,
}
use tailii_host.LiveStatus.{in_tmux_session, find_claude_live_records, ClaudeLiveRecord, shell}
use tailii_host.Reaper.Kept.{NotKept, claude_keep_alive_reason-NotKept}
use tailii_host.LocalServers.Ancestry.{Nearest, process_belongs_to_pane_correct}
use tailii_host.Reaper.{Backend, World, TickInput, Pane}
use tailii_host.Reaper.Schedule.{scheduled_pending, scheduled_pending_ends}
use tailii_host.Reaper.Keeping.{ClosedFrom, judge-closes_idle, judge-spares_recent}
use tailii_host.Reaper.Frame.{judge-frame}
use tailii_host.Reaper.Judge.{working, judge, get_prewarm, remove_prewarm, claude_keep_alive_reason}
use tailii_host.Reaper.Safety.{HasCause, judge-closes_with_cause}
use tailii_host.Reaper.Tick.{
  listed, disabled, Listing, live_sessions, spared, TickResult, finish, reaper_tick, sweep,
  is_tailii_session, reclaim, drop_prewarms, prewarm_names,
}
use tailii_host.Reaper.Total.{reaper_tick-is_some}
use tailii_host.Reaper.Reclaim.{backend_answers, finish-reclaims}
use tailii_host.Reaper.Names.{AllTailii, reaper_tick-closes_own}

process_belongs_to_pane_correct_example :
    (process_belongs_to_pane 30 (10 ∷ []) ((30, 20) ∷ (20, 10) ∷ []) none ≢ out_of_fuel)
    × ((process_belongs_to_pane 30 (10 ∷ []) ((30, 20) ∷ (20, 10) ∷ []) none ≡ belongs) ↔ (
        (shares_terminal 30 (10 ∷ []) none ≡ true)
        ⊎ ((n : ℕ) × Nearest ((30, 20) ∷ (20, 10) ∷ []) (10 ∷ []) n 30)))
process_belongs_to_pane_correct_example =
    process_belongs_to_pane_correct 30 (10 ∷ []) ((30, 20) ∷ (20, 10) ∷ []) none

grandchild_belongs : process_belongs_to_pane 30 (10 ∷ []) ((30, 20) ∷ (20, 10) ∷ []) none ≡ belongs
unfolding process_belongs_to_pane Maps.get
grandchild_belongs = refl

abbrev nightly : HeartbeatScheduled
nightly = record {
  at_ts = 100;
  pid = none;
  session_id = none;
  one_shot_ts = 90000000 ∷ [];
  recurring = record { id = "loop"; first_seen_ts = 90 } ∷ [];
  unparsed = true;
}

nightly_protects : scheduled_pending nightly 86000 ≡ true
unfolding scheduled_pending
nightly_protects = refl

scheduled_pending_ends_example : scheduled_pending nightly 607300 ≡ false
scheduled_pending_ends_example = scheduled_pending_ends nightly 607300 (omega arith) (omega arith)

abbrev quiet : Heartbeat
quiet = record { ts = 1000; state = idle; event = none; since_ms = none; scheduled = none }

abbrev one_session : World
one_session = record {
  heartbeats = ("cs-a", some (heartbeat_json quiet)) ∷ [];
  prewarms = [];
  kills = [];
  killed = [];
  demoted = [];
  reclaimed = [];
}

abbrev at_time : ℕ → TickInput
at_time now = record {
  now = now;
  timeout_seconds = 1800;
  metadata = [];
  has_prewarm_store = true;
  live_records = some [];
  process_alive = λ _ _. true;
  record_of_pid = λ _. none;
  local_servers = some (record { servers = []; parents = none; terminals = none });
  transcript_exists = λ _ _. false;
}

abbrev detached : Pane
detached = record {
  attached = false;
  agent_alive = true;
  pane_process_ids = some (10 ∷ []);
  front_process_ids = none;
  front_process_ids_throws = false;
  use_session_id = false;
  meanwhile_heartbeats = λ dir. dir;
  meanwhile_prewarms = λ store. store;
}

abbrev closed_session : World
closed_session = record {
  heartbeats = [];
  prewarms = [];
  kills = "cs-a" ∷ [];
  killed = "cs-a" ∷ [];
  demoted = [];
  reclaimed = [];
}

-- All that a judgement computes with.
judgement : Unit {0}
unfolding judge codec in_tmux_session read_heartbeat bump_heartbeat write_heartbeat remove_heartbeat
    valid_session_name get_prewarm remove_prewarm claude_keep_alive_reason find_claude_live_records
    scheduled_pending is_agent_listener process_belongs_to_pane Maps.get Maps.set Maps.delete
judgement = tt

quiet_is_closed : judge (at_time 2800) "cs-a" detached one_session ≡ some closed_session
unfolding judgement
quiet_is_closed = refl

judge-closes_with_cause_example :
    (closed_session.kills ≡ one_session.kills)
    ⊎ ((closed_session.kills ≡ one_session.kills ++ "cs-a" ∷ [])
        × HasCause (at_time 2800) "cs-a" detached one_session)
judge-closes_with_cause_example =
    judge-closes_with_cause (at_time 2800) "cs-a" detached one_session closed_session
      quiet_is_closed

-- A session of tailii's and one of the user's.
abbrev on_tmux : Listing
on_tmux = listed ("cs-a" ∷ "work" ∷ [])

abbrev panes : Backend → String → Pane
panes _ _ = detached

abbrev after_tick : TickResult
after_tick = record { world = closed_session; live_count = 1; stops_server = false }

tick_runs : reaper_tick (at_time 2800) panes on_tmux disabled one_session ≡ some after_tick
unfolding judgement reaper_tick sweep finish live_sessions is_tailii_session reclaim drop_prewarms
    prewarm_names list_heartbeat_sessions spared sort insert_sorted is_prefix Maps.keys
tick_runs = refl

reaper_tick-closes_own_example : AllTailii closed_session.kills
reaper_tick-closes_own_example =
    reaper_tick-closes_own (at_time 2800) panes on_tmux disabled one_session after_tick refl
      tick_runs

reaper_tick-is_some_example :
    is_some (reaper_tick (at_time 2800) panes (listed ("s-a/b" ∷ [])) disabled one_session)
    ≡ all valid_session_name (live_sessions (listed ("s-a/b" ∷ [])))
      && all valid_session_name (live_sessions disabled)
reaper_tick-is_some_example =
    reaper_tick-is_some (at_time 2800) panes (listed ("s-a/b" ∷ [])) disabled one_session

-- The pattern of tailii's names lets a name through that the heartbeat store refuses.
refused_name_throws :
    reaper_tick (at_time 2800) panes (listed ("s-a/b" ∷ [])) disabled one_session ≡ none
unfolding judgement reaper_tick sweep finish live_sessions is_tailii_session sort insert_sorted
    is_prefix
refused_name_throws = refl

finish-reclaims_example :
    read_heartbeat (finish (at_time 2800) (listed []) disabled one_session).world.heartbeats "cs-a"
    ≡ (if not (has_name "cs-a" (live_sessions (listed []) ++ live_sessions disabled))
          && backend_answers (at_time 2800) (listed []) disabled "cs-a"
          && not (includes (codes ".tmp-") (codes "cs-a"))
        then none
        else read_heartbeat one_session.heartbeats "cs-a")
finish-reclaims_example = finish-reclaims (at_time 2800) (listed []) disabled one_session "cs-a"

judge-closes_idle_example :
    (next : World) × (judge (at_time 2800) "cs-a" detached one_session ≡ some next)
    × ClosedFrom one_session "cs-a" "s-b" next
unfolding judgement
judge-closes_idle_example =
    judge-closes_idle (at_time 2800) "cs-a" "s-b" quiet detached one_session
      (record { servers = []; parents = none; terminals = none }) refl refl refl
      (inr (refl, (tt, tt))) (omega arith) refl tt refl

-- A Claude with a background shell since less than a day, and with a reservation of an ended process.
abbrev in_shell : ClaudeLiveRecord
in_shell = record {
  pid = 7;
  session_id = some "u";
  status = shell;
  status_since_ms = some 2000000;
  tmux = some "cs-a:0";
  proc_start = none;
}

abbrev with_shell : TickInput
with_shell = record (at_time 2800) { live_records = some (in_shell ∷ []) }

shell_keeps : claude_keep_alive_reason with_shell "cs-a" quiet detached ≡ some (working shell)
unfolding judgement is_prefix
shell_keeps = refl

abbrev reserving : Heartbeat
reserving = record quiet { scheduled = some (record nightly { pid = some 9 }) }

abbrev owner_ended : TickInput
owner_ended = record (at_time 2800) { process_alive = λ _ _. false }

claude_keep_alive_reason-NotKept_example :
    (claude_keep_alive_reason owner_ended "cs-a" reserving detached ≡ none)
    ↔ NotKept owner_ended "cs-a" reserving detached
claude_keep_alive_reason-NotKept_example =
    claude_keep_alive_reason-NotKept owner_ended "cs-a" reserving detached

orphan_not_kept : claude_keep_alive_reason owner_ended "cs-a" reserving detached ≡ none
unfolding judgement
orphan_not_kept = refl

-- One second before the timeout.
still_there : judge (at_time 2799) "cs-a" detached one_session ≡ some one_session
unfolding judgement
still_there = refl

judge-spares_recent_example : one_session.kills ≡ one_session.kills
unfolding judgement
judge-spares_recent_example =
    judge-spares_recent (at_time 2799) "cs-a" quiet detached one_session one_session refl refl
      (omega arith) still_there

judge-frame_example :
    read_heartbeat closed_session.heartbeats "s-b" ≡ read_heartbeat one_session.heartbeats "s-b"
judge-frame_example =
    judge-frame (at_time 2800) "cs-a" "s-b" detached one_session closed_session refl refl
      quiet_is_closed
