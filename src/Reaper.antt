-- ===== src/Reaper.antt =====
-- src/hub/reaper.ts: the periodic sweep that closes idle sessions. Here: its constants, its state
-- and what it observes. Times are natural numbers of seconds; `now - t < d` is written `now < t + d`,
-- which is the same also where the clock has gone back.
pub mod Schedule
pub mod Reservations
pub mod Kept
pub mod Judge
pub mod Tick
pub mod Reclaim
pub mod Total
pub mod Names
pub mod Apart
pub mod Servers
pub mod Closing
pub mod Safety
pub mod Keeping
pub mod Frame
use tailii_host.Prelude.{ℕ, ◌*◌, Bool, String, List, Option}
use tailii_host.Heartbeat.Store.{HeartbeatDir}
use tailii_host.LiveStatus.{ClaudeLiveRecord}
use tailii_host.LocalServers.{LocalServerProcesses}

abbrev pub reaper_idle_timeout_seconds : ℕ
reaper_idle_timeout_seconds = 1800

abbrev pub claude_working_max_seconds : ℕ
claude_working_max_seconds = 24 * 3600

abbrev pub scheduled_one_shot_grace_seconds : ℕ
scheduled_one_shot_grace_seconds = 10 * 60

abbrev pub scheduled_max_seconds : ℕ
scheduled_max_seconds = 7 * 24 * 3600

abbrev pub scheduled_recurring_final_grace_seconds : ℕ
scheduled_recurring_final_grace_seconds = 40 * 60

abbrev pub scheduled_unparsed_max_seconds : ℕ
scheduled_unparsed_max_seconds = 24 * 3600

-- `PREWARM_TTL_SECONDS` of src/sessions/prewarmStore.ts.
abbrev pub prewarm_ttl_seconds : ℕ
prewarm_ttl_seconds = 20 * 60

pub data Agent : Type 0 where
  claude codex : Agent

pub data Backend : Type 0 where
  tmux herdr : Backend

-- The part of `SessionMeta` that the sweep reads.
pub record SessionMeta : Type 0 where
  pub cwd : String
  pub agent : Option Agent
  pub backend : Option Backend
  pub claude_session_id : Option String
  pub provider_session_id : Option String

-- The part of `PrewarmRecord` that the sweep reads.
pub record PrewarmRecord : Type 0 where
  pub claude_session_id : String
  pub touched_at : ℕ

-- The store of prewarms: a file for each name, and in it the record, if it can be read.
abbrev pub Prewarms : Type 0
Prewarms = List (String × Option PrewarmRecord)

-- What the sweep changes. `kills` are the sessions whose backend was told to close them.
pub record World : Type 0 where
  pub heartbeats : HeartbeatDir
  pub prewarms : Prewarms
  pub kills : List String
  pub killed : List String
  pub demoted : List String
  pub reclaimed : List String

-- What one tick is given, and what it observes of the whole machine.
pub record TickInput : Type 0 where
  pub now : ℕ
  pub timeout_seconds : ℕ
  pub metadata : List (String × SessionMeta)
  -- false: the store of prewarms is null.
  pub has_prewarm_store : Bool
  -- The status files; `none`: their directory is null.
  pub live_records : Option (List ClaudeLiveRecord)
  pub process_alive : ℕ → Option String → Bool
  -- `readClaudeLiveRecordOf`.
  pub record_of_pid : ℕ → Option ClaudeLiveRecord
  pub local_servers : Option LocalServerProcesses
  -- `claudeTranscriptExists` of a directory and an id.
  pub transcript_exists : String → String → Bool

-- What the sweep observes of one session. The two functions are what other processes write between
-- its first reading and the reading just before it closes the session.
pub record Pane : Type 0 where
  pub attached : Bool
  pub agent_alive : Bool
  pub pane_process_ids : Option (List ℕ)
  -- For the matching of status files; `none`: not offered, or not available.
  pub front_process_ids : Option (List ℕ)
  -- Asking for them throws.
  pub front_process_ids_throws : Bool
  pub use_session_id : Bool
  pub meanwhile_heartbeats : HeartbeatDir → HeartbeatDir
  pub meanwhile_prewarms : Prewarms → Prewarms
