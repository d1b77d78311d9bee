-- ===== src/Reaper/Judge/Alive.antt =====
-- `claudeKeepAliveReason`: why a Claude session that timed out is kept, if it is.
use tailii_host.Prelude.{
  ℕ, ◌+◌, ◌*◌, Bool, true, false, not, ◌&&◌, ◌||◌, String, List, [], Option, none, some, ◌==◌,
  nat_eq, string_eq, if◌then◌else◌, ltb, length, any, find?, or_option,
}
use tailii_host.Prelude.Maps
use tailii_host.Heartbeat.{HeartbeatScheduled, Heartbeat}
use tailii_host.LiveStatus.{
  ClaudeLiveStatus, busy, shell, waiting, idle, ClaudeLiveRecord, is_claude_working,
  find_claude_live_records, in_tmux_session,
}
use tailii_host.Reaper.{SessionMeta, TickInput, Pane, claude_working_max_seconds}
use tailii_host.Reaper.Schedule.{scheduled_pending}

pub data KeepAlive : Type 0 where
  working : ClaudeLiveStatus → KeepAlive
  scheduled : KeepAlive

-- The event that the bump records, `daemon-claude-` and the reason.
unfoldable pub keep_alive_event : KeepAlive → String
keep_alive_event (working busy) = "daemon-claude-working-busy"
keep_alive_event (working shell) = "daemon-claude-working-shell"
keep_alive_event (working waiting) = "daemon-claude-working-waiting"
keep_alive_event (working idle) = "daemon-claude-working-idle"
keep_alive_event scheduled = "daemon-claude-scheduled"

-- `meta?.providerSessionId ?? meta?.claudeSessionId`, if ids are used at all.
unfoldable pub matching_id : Pane → Option SessionMeta → Option String
matching_id p none = none
matching_id p (some meta) =
    if p.use_session_id then or_option meta.provider_session_id meta.claude_session_id else none

-- The front pids are asked for where no file names the session in its tmux entry; if that throws,
-- the `catch` leaves no records.
unfoldable pub live_records_of : TickInput → String → Pane → List ClaudeLiveRecord
unfolding matching_id
live_records_of t name p = elim t.live_records [
  | none ↦ []
  | some records ↦
      if p.front_process_ids_throws && not (any (in_tmux_session name) records)
      then []
      else find_claude_live_records t.process_alive records name p.front_process_ids
          (matching_id p (Maps.get name t.metadata))
]

-- `-300 < now - since / 1000 < CLAUDE_WORKING_MAX_SECONDS`, in milliseconds.
unfoldable pub since_in_range : ℕ → Option ℕ → Bool
since_in_range now none = false
since_in_range now (some since) =
    ltb since (now * 1000 + 300 * 1000)
    && ltb (now * 1000) (since + claude_working_max_seconds * 1000)

unfoldable pub works_now : ℕ → ClaudeLiveRecord → Bool
unfolding since_in_range
works_now now r = is_claude_working r.status && since_in_range now r.status_since_ms

-- `ownRecord?.procStart ?? null`.
abbrev pub start_of : Option ClaudeLiveRecord → Option String
start_of none = none
start_of (some r) = r.proc_start

unfoldable pub own_record : TickInput → ℕ → Option ClaudeLiveRecord
own_record t pid = elim t.live_records [ none ↦ none | some _ ↦ t.record_of_pid pid ]

-- `scheduled.sessionId === undefined || record.sessionId === scheduled.sessionId`.
unfoldable pub same_session : Option String → Option String → Bool
same_session none session = true
same_session (some id) none = false
same_session (some id) (some s) = s == id

-- The process that made the reservations is there.
unfoldable pub owner_alive :
    TickInput → Pane → HeartbeatScheduled → List ClaudeLiveRecord → Option ℕ → Bool
unfolding own_record same_session
owner_alive t p s records (some pid) =
    any (λ r. r.pid == pid) records
    || t.process_alive pid (start_of (own_record t pid)) && (length records == 0) && p.agent_alive
owner_alive t p s records none =
    if length records == 0
    then p.agent_alive
    else any (λ r. same_session s.session_id r.session_id) records

unfoldable pub scheduled_reason :
    TickInput → Pane → List ClaudeLiveRecord → Option HeartbeatScheduled → Option KeepAlive
unfolding owner_alive
scheduled_reason t p records none = none
scheduled_reason t p records (some s) =
    if scheduled_pending s t.now && owner_alive t p s records s.pid then some scheduled else none

unfoldable pub claude_keep_alive_reason : TickInput → String → Heartbeat → Pane → Option KeepAlive
unfolding live_records_of works_now scheduled_reason
claude_keep_alive_reason t name h p = elim (find? (works_now t.now) (live_records_of t name p)) [
  | some r ↦ some (working r.status)
  | none ↦ scheduled_reason t p (live_records_of t name p) h.scheduled
]
