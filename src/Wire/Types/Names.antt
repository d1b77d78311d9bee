-- ===== src/Wire/Types/Names.antt =====
-- The unions of string literals of src/protocol/messages.ts.
use tailii_host.Prelude.{[], ◌∷◌}
use tailii_host.Wire.Shapes.{Shape, literals}

abbrev pub subagent_node_status : Shape
subagent_node_status = literals ("running" ∷ "completed" ∷ "error" ∷ [])

abbrev pub codex_collaboration_mode : Shape
codex_collaboration_mode = literals ("plan" ∷ "default" ∷ [])

abbrev pub codex_goal_action : Shape
codex_goal_action = literals ("get" ∷ "set" ∷ "clear" ∷ [])

abbrev pub chat_role : Shape
chat_role = literals ("assistant" ∷ "user" ∷ "system" ∷ [])

abbrev pub subagent_transcript_role : Shape
subagent_transcript_role = literals ("assistant" ∷ "user" ∷ "tool" ∷ [])

abbrev pub subagent_transcript_kind : Shape
subagent_transcript_kind = literals ("tool_use" ∷ "tool_result" ∷ [])

abbrev pub decision : Shape
decision = literals ("allow" ∷ "deny" ∷ [])

abbrev pub remote_pending_kind : Shape
remote_pending_kind = literals ("approval" ∷ "question" ∷ [])

abbrev pub host_update_status : Shape
host_update_status = literals ("started" ∷ "already" ∷ "in_progress" ∷ "unsupported" ∷ "error" ∷ [])

abbrev pub background_command_stop_status : Shape
background_command_stop_status = literals ("stopped" ∷ "not_running" ∷ "not_found" ∷ "failed" ∷ [])

abbrev pub official_app_provider : Shape
official_app_provider = literals ("claude" ∷ "codex" ∷ [])

abbrev pub official_app_action : Shape
official_app_action = literals ("open" ∷ "repair" ∷ "stop" ∷ [])

abbrev pub official_app_state : Shape
official_app_state = literals ("active" ∷ "inactive" ∷ "unavailable" ∷ [])

abbrev pub official_app_outcome : Shape
official_app_outcome = literals ("open" ∷ "pair" ∷ "stopped" ∷ "unavailable" ∷ [])

abbrev pub terminal_backend_kind : Shape
terminal_backend_kind = literals ("tmux" ∷ "herdr" ∷ [])

abbrev pub tool_denial_kind : Shape
tool_denial_kind = literals (
    "user-rejected" ∷ "permission-rule" ∷ "automode-blocked" ∷ "automode-unavailable"
    ∷ "automode-parsing-error" ∷ "interrupted" ∷ "cancelled" ∷ [])
