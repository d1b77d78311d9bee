-- ===== src/Wire/Types/Activity.antt =====
-- The messages of src/protocol/messages.ts: the properties but for `type` and `v`.
use tailii_host.Prelude.{false}
use tailii_host.Wire.Shapes.{
  string_type, number_type, array_type, object_type, Entries, no_entries, entry,
}
use tailii_host.Wire.Types.Objects.{tool_activity_object, subagent_node_object}
use tailii_host.Wire.Types.Infos.{subagent_transcript_entry_object}

abbrev pub subagent_transcript_request_type : Entries
subagent_transcript_request_type =
    entry "id" false string_type (entry "nodeId" false string_type no_entries)

abbrev pub subagent_transcript_response_type : Entries
subagent_transcript_response_type = entry "id" false string_type (
    entry "nodeId" false string_type (
      entry "entries" false (array_type (object_type subagent_transcript_entry_object))
        (entry "omitted" false number_type no_entries)))

abbrev pub tool_activity_type : Entries
tool_activity_type = entry "activity" false (object_type tool_activity_object) no_entries

abbrev pub session_tool_activity_type : Entries
session_tool_activity_type = entry "session" false string_type (
    entry "serverSeq" false number_type
      (entry "activity" false (object_type tool_activity_object) no_entries))

abbrev pub subagent_node_type : Entries
subagent_node_type = entry "node" false (object_type subagent_node_object) no_entries
