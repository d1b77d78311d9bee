-- ===== src/Wire/Types/Objects.antt =====
-- The object types of src/protocol/messages.ts, on sessions and activities.
use tailii_host.Prelude.{[], ◌∷◌, true, false}
use tailii_host.Wire.Shapes.{
  string_type, number_type, boolean_type, literals, nullable, array_type, object_type, Entries,
  no_entries, entry,
}
use tailii_host.Wire.Types.Names.{subagent_node_status, terminal_backend_kind, tool_denial_kind}

abbrev pub tool_diff_object : Entries
tool_diff_object = entry "kind" false (literals ("create" ∷ "edit" ∷ [])) (
    entry "path" false string_type (
      entry "newText" true string_type
        (entry "oldString" true string_type (entry "newString" true string_type no_entries))))

abbrev pub session_info_object : Entries
session_info_object = entry "name" false string_type (
    entry "cwd" false string_type (
      entry "alive" false boolean_type (
        entry "updatedAt" true number_type (
          entry "claudeSessionId" true string_type (
            entry "agent" true (literals ("claude" ∷ "codex" ∷ [])) (
              entry "providerSessionId" true string_type (
                entry "backend" true terminal_backend_kind
                  (entry "displayTitle" true string_type no_entries))))))))

abbrev pub tool_activity_diff_object : Entries
tool_activity_diff_object = entry "oldString" true string_type (
    entry "newString" true string_type (
      entry "oldStringTruncated" false boolean_type
        (entry "newStringTruncated" false boolean_type no_entries)))

abbrev pub tool_activity_todo_object : Entries
tool_activity_todo_object =
    entry "content" false string_type (entry "status" false string_type no_entries)

abbrev pub tool_activity_object : Entries
tool_activity_object = entry "id" false string_type (
    entry "name" false string_type (
      entry "label" false string_type (
        entry "file" true string_type (
          entry "addedLines" true number_type (
            entry "removedLines" true number_type (
              entry "diff" true (object_type tool_activity_diff_object) (
                entry "command" true string_type (
                  entry "commandTruncated" false boolean_type (
                    entry "description" true string_type (
                      entry "descriptionTruncated" false boolean_type (
                        entry "todos" true (array_type (object_type tool_activity_todo_object)) (
                          entry "files" true (array_type (string_type)) (
                            entry "url" true string_type (
                              entry "denial" true tool_denial_kind (
                                entry "outcome" true
                                  (literals (
                                    "completed" ∷ "unverified" ∷ "failed" ∷ "connection_failed"
                                    ∷ []))
                                  no_entries)))))))))))))))

abbrev pub subagent_node_object : Entries
subagent_node_object = entry "nodeId" false string_type (
    entry "toolUseId" false string_type (
      entry "parentNodeId" true (nullable (string_type)) (
        entry "agentType" false string_type (
          entry "label" false string_type (
            entry "depth" false number_type (
              entry "status" false subagent_node_status (
                entry "currentActivity" true (nullable (string_type)) (
                  entry "ts" false number_type (
                    entry "kind" true (literals ("command" ∷ [])) (
                      entry "model" true (nullable (string_type))
                        (entry "effort" true (nullable (string_type)) no_entries)))))))))))

abbrev pub slash_command_info_object : Entries
slash_command_info_object =
    entry "name" false string_type (entry "summary" false string_type no_entries)

abbrev pub peer_session_info_object : Entries
peer_session_info_object = entry "name" false string_type (
    entry "cwd" false string_type (
      entry "sessionId" false string_type
        (entry "status" true string_type (entry "bridged" true boolean_type no_entries))))

abbrev pub claude_session_info_object : Entries
claude_session_info_object = entry "sessionId" false string_type (
    entry "cwd" false string_type (
      entry "title" false string_type (
        entry "updatedAt" true number_type (
          entry "agent" true (literals ("claude" ∷ "codex" ∷ [])) (
            entry "hasProviderTitle" true boolean_type (
              entry "lastMessage" true string_type (
                entry "liveSessionName" true string_type (
                  entry "liveSessionBackend" true terminal_backend_kind (
                    entry "peerSessionName" true string_type
                      (entry "peerBridged" true boolean_type no_entries))))))))))

abbrev pub session_search_result_object : Entries
session_search_result_object = entry "sessionId" false string_type (
    entry "title" false string_type (
      entry "cwd" false string_type
        (entry "snippet" false string_type (entry "updatedAt" true number_type no_entries))))

abbrev pub serve_process_info_object : Entries
serve_process_info_object = entry "pid" false number_type (
    entry "port" false number_type (
      entry "command" false string_type (
        entry "commandLine" true string_type
          (entry "cwd" true string_type (entry "title" true string_type no_entries)))))
