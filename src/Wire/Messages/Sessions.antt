-- ===== src/Wire/Messages/Sessions.antt =====
-- The messages that list, start and name sessions.
use tailii_host.Prelude.{List, [], ◌∷◌, refl}
use tailii_host.Wire.Kinds.{between}
use tailii_host.Wire.Readers.{
  optional, require_string, optional_string, optional_number, require_boolean, optional_boolean,
  optional_one_of,
}
use tailii_host.Wire.Arrays.{require_array}
use tailii_host.Wire.Parts.{Part, at}
use tailii_host.Wire.Pairs.{live_session}
use tailii_host.Wire.Objects.{object}
use tailii_host.Wire.Trim.{output_style, worktree_ref}
use tailii_host.Wire.Choices.{max_safe_integer, permission_mode, effort, session_backend}

abbrev pub session_info : List Part
session_info =
    at "name" require_string
    ∷ at "cwd" require_string
    ∷ at "alive" require_boolean
    ∷ at "updatedAt" optional_number
    ∷ at "claudeSessionId" optional_string
    ∷ at "agent" (optional_one_of ("codex" ∷ "claude" ∷ []))
    ∷ at "providerSessionId" optional_string
    ∷ at "backend" session_backend
    ∷ at "displayTitle" optional_string
    ∷ []

abbrev pub session_list_request : List Part
session_list_request =
    at "id" require_string ∷ at "limit" optional_number ∷ at "cursor" optional_string ∷ []

abbrev pub session_list_response : List Part
session_list_response =
    at "id" require_string
    ∷ at "sessions" (require_array (object session_info refl))
    ∷ at "nextCursor" optional_string
    ∷ at "adoptedName" optional_string
    ∷ at "worktreePath" optional_string
    ∷ at "worktreeRemoved" optional_boolean
    ∷ at "worktreeDirty" optional_boolean
    ∷ []

abbrev pub session_start : List Part
session_start =
    at "id" require_string
    ∷ at "cwd" require_string
    ∷ at "name" require_string
    ∷ at "baseDir" optional_string
    ∷ at "resumeSessionId" optional_string
    ∷ at "title" optional_string
    ∷ at "agentType" (optional_one_of ("codex" ∷ "claude" ∷ []))
    ∷ at "model" optional_string
    ∷ at "permissionMode" permission_mode
    ∷ at "effort" effort
    ∷ at "codexModel" optional_string
    ∷ at "codexSandbox"
        (optional_one_of ("read-only" ∷ "workspace-write" ∷ "danger-full-access" ∷ []))
    ∷ at "deferSubscribe" optional_boolean
    ∷ at "outputStyle" output_style
    ∷ at "worktree" worktree_ref
    ∷ at "todoTools" optional_boolean
    ∷ []

abbrev pub session_prewarm : List Part
session_prewarm =
    at "id" require_string
    ∷ at "cwd" require_string
    ∷ at "name" require_string
    ∷ at "baseDir" optional_string
    ∷ at "title" optional_string
    ∷ at "model" optional_string
    ∷ at "permissionMode" permission_mode
    ∷ at "effort" effort
    ∷ at "outputStyle" output_style
    ∷ at "todoTools" optional_boolean
    ∷ []

abbrev pub session_prewarm_cancel : List Part
session_prewarm_cancel = at "id" require_string ∷ at "name" require_string ∷ []

abbrev pub session_reattach : List Part
session_reattach =
    at "id" require_string
    ∷ at "name" require_string
    ∷ at "newerThanMs" (optional (between 0 max_safe_integer))
    ∷ []

-- `session_kill`, `session_idle_hint`.
abbrev pub session_kill : List Part
session_kill = at "id" require_string ∷ at "name" require_string ∷ []

abbrev pub claude_session_info : List Part
claude_session_info =
    at "sessionId" require_string
    ∷ at "cwd" require_string
    ∷ at "title" require_string
    ∷ at "updatedAt" optional_number
    ∷ at "agent" (optional_one_of ("codex" ∷ "claude" ∷ []))
    ∷ at "hasProviderTitle" optional_boolean
    ∷ at "lastMessage" optional_string
    ∷ live_session
    ∷ at "peerSessionName" optional_string
    ∷ at "peerBridged" optional_boolean
    ∷ []

abbrev pub claude_session_list_response : List Part
claude_session_list_response =
    at "id" require_string
    ∷ at "claudeSessions" (require_array (object claude_session_info refl))
    ∷ at "liveSessionsResolved" optional_boolean
    ∷ []

abbrev pub session_search_request : List Part
session_search_request =
    at "id" require_string ∷ at "query" require_string ∷ at "limit" optional_number ∷ []

abbrev pub session_search_result : List Part
session_search_result =
    at "sessionId" require_string
    ∷ at "title" require_string
    ∷ at "cwd" require_string
    ∷ at "snippet" require_string
    ∷ at "updatedAt" optional_number
    ∷ []

abbrev pub session_search_response : List Part
session_search_response =
    at "id" require_string ∷ at "results" (require_array (object session_search_result refl)) ∷ []

abbrev pub session_processing_state : List Part
session_processing_state = at "session" require_string ∷ at "active" require_boolean ∷ []

abbrev pub session_preview_watch : List Part
session_preview_watch = at "enabled" require_boolean ∷ []

abbrev pub session_liveness_event : List Part
session_liveness_event = at "session" require_string ∷ at "alive" require_boolean ∷ []

abbrev pub session_title_set : List Part
session_title_set =
    at "id" require_string ∷ at "session" require_string ∷ at "title" require_string ∷ []
