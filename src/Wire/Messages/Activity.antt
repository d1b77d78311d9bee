-- ===== src/Wire/Messages/Activity.antt =====
-- The messages on tool calls and subagents. The activity or the node that a message carries is read
-- from the message's own properties.
use tailii_host.Prelude.{List, [], ◌∷◌, refl, String}
use tailii_host.Wire.Kinds.{a_string}
use tailii_host.Wire.Readers.{
  the, require_string, optional_string, optional_nullable_string, require_number, optional_number,
  require_one_of, optional_one_of, optional_only, boolean_or_else_false,
}
use tailii_host.Wire.Arrays.{require_array}
use tailii_host.Wire.Parts.{Part, at}
use tailii_host.Wire.Pairs.{role_and_kind}
use tailii_host.Wire.Objects.{object, optional_object, optional_array}

abbrev pub subagent_transcript_request : List Part
subagent_transcript_request = at "id" require_string ∷ at "nodeId" require_string ∷ []

abbrev pub subagent_transcript_entry : List Part
subagent_transcript_entry = role_and_kind ∷ at "text" require_string ∷ at "ts" optional_number ∷ []

abbrev pub subagent_transcript_response : List Part
subagent_transcript_response =
    at "id" require_string
    ∷ at "nodeId" require_string
    ∷ at "entries" (require_array (object subagent_transcript_entry refl))
    ∷ at "omitted" require_number
    ∷ []

abbrev pub tool_activity_diff : List Part
tool_activity_diff =
    at "oldString" optional_string
    ∷ at "newString" optional_string
    ∷ at "oldStringTruncated" boolean_or_else_false
    ∷ at "newStringTruncated" boolean_or_else_false
    ∷ []

abbrev pub tool_activity_todo : List Part
tool_activity_todo = at "content" require_string ∷ at "status" require_string ∷ []

abbrev tool_denial_kinds : List String
tool_denial_kinds =
    "user-rejected" ∷ "permission-rule" ∷ "automode-blocked" ∷ "automode-unavailable"
    ∷ "automode-parsing-error" ∷ "interrupted" ∷ "cancelled" ∷ []

abbrev pub tool_activity_info : List Part
tool_activity_info =
    at "id" require_string
    ∷ at "name" require_string
    ∷ at "label" require_string
    ∷ at "file" optional_string
    ∷ at "addedLines" optional_number
    ∷ at "removedLines" optional_number
    ∷ at "diff" (optional_object tool_activity_diff refl)
    ∷ at "command" optional_string
    ∷ at "commandTruncated" boolean_or_else_false
    ∷ at "description" optional_string
    ∷ at "descriptionTruncated" boolean_or_else_false
    ∷ at "todos" (optional_array (object tool_activity_todo refl))
    ∷ at "files" (optional_array (the a_string))
    ∷ at "url" optional_string
    ∷ at "denial" (optional_one_of tool_denial_kinds)
    ∷ at "outcome"
        (optional_one_of ("completed" ∷ "unverified" ∷ "failed" ∷ "connection_failed" ∷ []))
    ∷ []

abbrev pub tool_activity : List Part
tool_activity = []

abbrev pub session_tool_activity : List Part
session_tool_activity = at "session" require_string ∷ at "serverSeq" require_number ∷ []

abbrev pub subagent_node_info : List Part
subagent_node_info =
    at "nodeId" require_string
    ∷ at "toolUseId" require_string
    ∷ at "parentNodeId" optional_nullable_string
    ∷ at "agentType" require_string
    ∷ at "label" require_string
    ∷ at "depth" require_number
    ∷ at "status" (require_one_of ("running" ∷ "completed" ∷ "error" ∷ []))
    ∷ at "currentActivity" optional_nullable_string
    ∷ at "ts" require_number
    ∷ at "kind" (optional_only "command")
    ∷ at "model" optional_nullable_string
    ∷ at "effort" optional_nullable_string
    ∷ []

abbrev pub subagent_node : List Part
subagent_node = []
