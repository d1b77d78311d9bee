-- ===== src/Reaper/Judge.antt =====
-- `judge` of `reaperTick`: what one sweep does with one live session, branch by branch in the order
-- of the code. `none`: `validateSessionName` throws, which the code does not catch.
mod Alive
unfoldable pub use Alive.*
use mathlib.Core.Option
use tailii_host.Prelude.{
  ℕ, ◌+◌, Bool, true, false, not, ◌&&◌, ◌||◌, String, List, [], ◌∷◌, ◌++◌, Option, none, some, ◌==◌,
  nat_eq, string_eq, if◌then◌else◌, ltb, leb, length, filter, any, map, or_else,
}
use tailii_host.Prelude.Maps
use tailii_host.Heartbeat.{HeartbeatState, active, idle, Heartbeat, keep, clear, valid_session_name}
use tailii_host.Heartbeat.Store.{
  HeartbeatDir, read_heartbeat, write_heartbeat, bump_heartbeat, remove_heartbeat,
}
use tailii_host.LocalServers.{
  Server, LocalServerProcesses, is_agent_listener, Walk, belongs, apart, unknown, out_of_fuel,
  process_belongs_to_pane,
}
use tailii_host.Reaper.{
  Agent, claude, codex, SessionMeta, PrewarmRecord, Prewarms, World, TickInput, Pane,
  prewarm_ttl_seconds,
}

-- `prewarmStore.get(name)` and `prewarmStore.remove(name)`.
abbrev pub record_in : Option (Option PrewarmRecord) → Option PrewarmRecord
record_in none = none
record_in (some file) = file

unfoldable pub get_prewarm : String → Prewarms → Option PrewarmRecord
get_prewarm name store = if valid_session_name name then record_in (Maps.get name store) else none

unfoldable pub remove_prewarm : String → Prewarms → Prewarms
remove_prewarm name store = if valid_session_name name then Maps.delete name store else store

-- `prewarmExpired(record, now)`.
abbrev pub prewarm_expired : PrewarmRecord → ℕ → Bool
prewarm_expired r now = leb (r.touched_at + prewarm_ttl_seconds) now

-- The backend is told to close the session, its heartbeat goes, and the tick reports it.
abbrev pub close_session : String → World → World
close_session name w = record w {
  kills = w.kills ++ name ∷ [];
  heartbeats = remove_heartbeat w.heartbeats name;
  killed = w.killed ++ name ∷ [];
}

abbrev pub with_heartbeats : World → Option HeartbeatDir → Option World
with_heartbeats w none = none
with_heartbeats w (some dir) = some (record w { heartbeats = dir })

abbrev pub bump : World → String → ℕ → String → HeartbeatState → Option World
bump w name now event fallback =
    with_heartbeats w (bump_heartbeat w.heartbeats name now event fallback)

-- The part on prewarms ends the judgement, or lets it go on.
pub data Verdict : Type 0 where
  done go_on : World → Verdict

-- The reading just before a prewarm is closed.
unfoldable pub recheck_prewarm : TickInput → String → PrewarmRecord → World → Verdict
recheck_prewarm t name prewarm w = elim (get_prewarm name w.prewarms) [
  | none ↦ done w
  | some again ↦
      if not (again.claude_session_id == prewarm.claude_session_id)
        || not (prewarm_expired again t.now)
      then done w
      else done (close_session name (record w { prewarms = remove_prewarm name w.prewarms }))
]

-- `meta !== null && claudeTranscriptExists(meta.cwd, prewarm.claudeSessionId)`.
unfoldable pub conversation_started : TickInput → Option SessionMeta → PrewarmRecord → Bool
conversation_started t none prewarm = false
conversation_started t (some meta) prewarm = t.transcript_exists meta.cwd prewarm.claude_session_id

unfoldable pub judge_prewarm : TickInput → String → Pane → World → Option PrewarmRecord → Verdict
unfolding recheck_prewarm conversation_started
judge_prewarm t name p w none = go_on w
judge_prewarm t name p w (some prewarm) =
    if conversation_started t (Maps.get name t.metadata) prewarm
    then go_on (record w { prewarms = remove_prewarm name w.prewarms })
    else if p.attached || not (prewarm_expired prewarm t.now)
    then done w
    else recheck_prewarm t name prewarm (record w { prewarms = p.meanwhile_prewarms w.prewarms })

-- How a candidate server bears on the session.
unfoldable pub is_belongs : Walk → Bool
is_belongs belongs = true
is_belongs _ = false

unfoldable pub is_unknown : Walk → Bool
is_unknown unknown = true
is_unknown _ = false

-- `recheck !== null && recheck.ts !== heartbeat.ts`.
unfoldable pub moved_on : Heartbeat → Option Heartbeat → Bool
moved_on h none = false
moved_on h (some again) = not (again.ts == h.ts)

-- The re-reading just before the close, and the close.
unfoldable pub recheck_and_close : String → Heartbeat → World → World
unfolding moved_on
recheck_and_close name h w =
    if moved_on h (read_heartbeat w.heartbeats name) then w else close_session name w

-- The candidate servers, when the pane's pids and the parents are known.
unfoldable pub judge_owned :
    TickInput → String → Heartbeat → Pane → World → List Walk → Option World
unfolding recheck_and_close is_belongs is_unknown
judge_owned t name h p w walks =
    if any is_belongs walks
    then bump w name t.now "daemon-local-server" idle
    else if any is_unknown walks
    then some w
    else some
        (recheck_and_close name h (record w { heartbeats = p.meanwhile_heartbeats w.heartbeats }))

-- `roots === null || roots.length === 0` is no roots.
unfoldable pub judge_candidates :
    TickInput
    → String
    → Heartbeat
    → Pane
    → World
    → LocalServerProcesses
    → List Server
    → Option World
unfolding judge_owned
judge_candidates t name h p w ls candidates = elim ls.parents [
  | none ↦ some w
  | some parents ↦ elim p.pane_process_ids [
    | none ↦ some w
    | some roots ↦
        if length roots == 0
        then some w
        else judge_owned t name h p w
            (map (λ s. process_belongs_to_pane s.pid roots parents ls.terminals) candidates)
  ]
]

abbrev pub candidate_servers : LocalServerProcesses → List Server
candidate_servers ls = filter (λ s. not (is_agent_listener s.command)) ls.servers

unfoldable pub judge_servers : TickInput → String → Heartbeat → Pane → World → Option World
unfolding judge_candidates recheck_and_close
judge_servers t name h p w = elim t.local_servers [
  | none ↦ some w
  | some ls ↦
      if length (candidate_servers ls) == 0
      then some
          (recheck_and_close name h (record w { heartbeats = p.meanwhile_heartbeats w.heartbeats }))
      else judge_candidates t name h p w ls (candidate_servers ls)
]

-- The session has timed out.
unfoldable pub judge_overdue : TickInput → String → Heartbeat → Pane → World → Agent → Option World
unfolding judge_servers
judge_overdue t name h p w codex = judge_servers t name h p w
judge_overdue t name h p w claude = elim (claude_keep_alive_reason t name h p) [
  | some reason ↦ bump w name t.now (keep_alive_event reason) idle
  | none ↦ judge_servers t name h p w
]

unfoldable pub judge_timed : TickInput → String → Heartbeat → Pane → World → Agent → Option World
unfolding judge_overdue
judge_timed t name h p w agent =
    if ltb t.now (h.ts + t.timeout_seconds) then some w else judge_overdue t name h p w agent

-- `metadataStore.get(name)?.agent ?? "claude"`.
abbrev pub agent_of : Option SessionMeta → Agent
agent_of none = claude
agent_of (some meta) = or_else meta.agent claude

-- The process of an active Claude is gone: idle from now on, and its reservations with it.
abbrev pub demote : TickInput → String → World → Option World
demote t name w =
    with_heartbeats (record w { demoted = w.demoted ++ name ∷ [] })
      (write_heartbeat w.heartbeats name (record {
        ts = t.now;
        state = idle;
        event = some "agent-process-dead";
        since_ms = none;
        scheduled = clear;
      }))

unfoldable pub judge_state :
    TickInput → String → Heartbeat → Pane → World → HeartbeatState → Agent → Option World
unfolding judge_timed
judge_state t name h p w active claude =
    if p.agent_alive then bump w name t.now "daemon-agent-alive" active else demote t name w
judge_state t name h p w _ agent = judge_timed t name h p w agent

-- A live session without a heartbeat is idle from now on.
abbrev pub adopt : TickInput → String → World → Option World
adopt t name w = with_heartbeats w (
    write_heartbeat w.heartbeats name (record {
      ts = t.now;
      state = idle;
      event = some "adopted";
      since_ms = none;
      scheduled = keep;
    }))

unfoldable pub judge_heartbeat : TickInput → String → Pane → World → Option Heartbeat → Option World
unfolding judge_state
judge_heartbeat t name p w none = adopt t name w
judge_heartbeat t name p w (some h) =
    if p.attached
    then bump w name t.now "daemon-client-attached" idle
    else judge_state t name h p w h.state (agent_of (Maps.get name t.metadata))

unfoldable pub after_prewarm : TickInput → String → Pane → Verdict → Option World
unfolding judge_heartbeat
after_prewarm t name p (done w) = some w
after_prewarm t name p (go_on w) = judge_heartbeat t name p w (read_heartbeat w.heartbeats name)

unfoldable pub judge : TickInput → String → Pane → World → Option World
unfolding after_prewarm judge_prewarm
judge t name p w =
    after_prewarm t name p
      (judge_prewarm t name p w (if t.has_prewarm_store then get_prewarm name w.prewarms else none))
