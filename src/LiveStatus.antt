-- ===== src/LiveStatus.antt =====
-- src/sessions/claudeLiveStatus.ts: what running Claude processes say of themselves, and which of
-- their records belong to a session. The records of the directory are a list, `ps` a function
-- (`process_alive`), and the front pids of a herdr pane an optional list (`none`: not available).
pub mod Matching
use tailii_host.Prelude.{
  ℕ, Bool, true, false, String, List, [], ◌∷◌, ◌++◌, Option, none, some, ◌==◌, nat_eq, string_eq,
  if◌then◌else◌, ◌&&◌, length, filter, or_option, is_some, not,
}
use tailii_host.Prelude.Text.{codes, is_prefix}
use tailii_host.LocalServers.{has_pid}
use tailii_host.Json.{Json, str, property, as_string, as_finite, is_record}

pub data ClaudeLiveStatus : Type 0 where
  busy shell waiting idle : ClaudeLiveStatus

pub record ClaudeLiveRecord : Type 0 where
  pub pid : ℕ
  pub session_id : Option String
  pub status : ClaudeLiveStatus
  pub status_since_ms : Option ℕ
  pub tmux : Option String
  pub proc_start : Option String

-- `isClaudeWorking`.
abbrev pub is_claude_working : ClaudeLiveStatus → Bool
is_claude_working idle = false
is_claude_working _ = true

-- `parseStatus`.
parse_status : Option Json → Option ClaudeLiveStatus
parse_status (some (str s)) =
    if s == "busy"
    then some busy
    else if s == "shell"
    then some shell
    else if s == "waiting"
    then some waiting
    else if s == "idle"
    then some idle
    else none
parse_status _ = none

record_of : Json → Option ℕ → Option ClaudeLiveStatus → Option ClaudeLiveRecord
record_of raw (some pid) (some status) =
    if pid == 0
    then none
    else some (record {
      pid = pid;
      session_id = as_string (property "sessionId" raw);
      status = status;
      status_since_ms =
          or_option (as_finite (property "statusUpdatedAt" raw))
            (as_finite (property "updatedAt" raw));
      tmux = as_string (property "tmux" raw);
      proc_start = as_string (property "procStart" raw);
    })
record_of raw _ _ = none

-- `parseClaudeLiveRecord`, on what `JSON.parse` made of the file.
unfoldable pub parse_claude_live_record : Option Json → Option ClaudeLiveRecord
unfolding parse_status record_of
parse_claude_live_record none = none
parse_claude_live_record (some raw) =
    if is_record raw
    then record_of raw (as_finite (property "pid" raw)) (parse_status (property "status" raw))
    else none

-- `record.tmux !== null && record.tmux.startsWith(sessionName + ":")`.
unfoldable pub in_tmux_session : String → ClaudeLiveRecord → Bool
in_tmux_session session r = starts r.tmux
  where
    starts : Option String → Bool
    starts none = false
    starts (some tmux) = is_prefix (codes session ++ b':' ∷ []) (codes tmux)

abbrev pub has_session_id : String → Option String → Bool
has_session_id id none = false
has_session_id id (some s) = s == id

module _ (process_alive : ℕ → Option String → Bool) where
  -- `aliveOf`.
  abbrev pub alive_of : List ClaudeLiveRecord → List ClaudeLiveRecord
  alive_of records = filter (λ r. process_alive r.pid r.proc_start) records

  unfoldable pub by_session_id : List ClaudeLiveRecord → Option String → List ClaudeLiveRecord
  by_session_id records none = []
  by_session_id records (some id) =
      let found =
        alive_of (filter (λ r. not (is_some r.tmux) && has_session_id id r.session_id) records) in
      if length found == 1 then found else []

  unfoldable pub by_pane :
      List ClaudeLiveRecord → Option (List ℕ) → Option String → List ClaudeLiveRecord
  by_pane records (some pids) id = alive_of (filter (λ r. has_pid r.pid pids) records)
  by_pane records none id = by_session_id records id

  -- `findClaudeLiveRecords`.
  unfoldable pub find_claude_live_records :
      List ClaudeLiveRecord → String → Option (List ℕ) → Option String → List ClaudeLiveRecord
  unfolding by_pane by_session_id in_tmux_session
  find_claude_live_records records session pane_pids id =
      let by_tmux = filter (in_tmux_session session) records in
      if length by_tmux == 0
      then (if length records == 0 then [] else by_pane records pane_pids id)
      else alive_of by_tmux
