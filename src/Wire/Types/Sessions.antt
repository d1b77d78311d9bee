-- ===== src/Wire/Types/Sessions.antt =====
-- The messages of src/protocol/messages.ts: the properties but for `type` and `v`.
use tailii_host.Prelude.{[], ◌∷◌, true, false}
use tailii_host.Wire.Shapes.{
  string_type, number_type, boolean_type, literals, array_type, object_type, Entries, no_entries,
  entry,
}
use tailii_host.Wire.Types.Objects.{
  session_info_object, claude_session_info_object, session_search_result_object,
}

abbrev pub session_list_request_type : Entries
session_list_request_type =
    entry "id" false string_type
      (entry "limit" true number_type (entry "cursor" true string_type no_entries))

abbrev pub session_list_response_type : Entries
session_list_response_type = entry "id" false string_type (
    entry "sessions" false (array_type (object_type session_info_object)) (
      entry "nextCursor" true string_type (
        entry "adoptedName" true string_type (
          entry "worktreePath" true string_type (
            entry "worktreeRemoved" true boolean_type
              (entry "worktreeDirty" true boolean_type no_entries))))))

abbrev pub session_start_type : Entries
session_start_type = entry "id" false string_type (
    entry "cwd" false string_type (
      entry "name" false string_type (
        entry "baseDir" true string_type (
          entry "resumeSessionId" true string_type (
            entry "title" true string_type (
              entry "agentType" true (literals ("claude" ∷ "codex" ∷ [])) (
                entry "model" true string_type (
                  entry "permissionMode" true
                    (literals ("default" ∷ "acceptEdits" ∷ "plan" ∷ "auto" ∷ []))
                    (entry "effort" true
                      (literals ("low" ∷ "medium" ∷ "high" ∷ "xhigh" ∷ "max" ∷ []))
                      (entry "codexModel" true string_type (
                        entry "codexSandbox" true
                          (literals ("read-only" ∷ "workspace-write" ∷ "danger-full-access" ∷ []))
                          (entry "deferSubscribe" true boolean_type (
                            entry "outputStyle" true string_type (
                              entry "worktree" true string_type
                                (entry "todoTools" true boolean_type no_entries)))))))))))))))

abbrev pub session_reattach_type : Entries
session_reattach_type =
    entry "id" false string_type
      (entry "name" false string_type (entry "newerThanMs" true number_type no_entries))

abbrev pub session_kill_type : Entries
session_kill_type = entry "id" false string_type (entry "name" false string_type no_entries)

abbrev pub session_prewarm_type : Entries
session_prewarm_type = entry "id" false string_type (
    entry "cwd" false string_type (
      entry "name" false string_type (
        entry "baseDir" true string_type (
          entry "title" true string_type (
            entry "model" true string_type (
              entry "permissionMode" true
                (literals ("default" ∷ "acceptEdits" ∷ "plan" ∷ "auto" ∷ []))
                (entry "effort" true (literals ("low" ∷ "medium" ∷ "high" ∷ "xhigh" ∷ "max" ∷ [])) (
                  entry "outputStyle" true string_type
                    (entry "todoTools" true boolean_type no_entries)))))))))

abbrev pub session_prewarm_cancel_type : Entries
session_prewarm_cancel_type =
    entry "id" false string_type (entry "name" false string_type no_entries)

abbrev pub session_idle_hint_type : Entries
session_idle_hint_type = entry "id" false string_type (entry "name" false string_type no_entries)

abbrev pub session_processing_state_type : Entries
session_processing_state_type =
    entry "session" false string_type (entry "active" false boolean_type no_entries)

abbrev pub session_preview_watch_type : Entries
session_preview_watch_type = entry "enabled" false boolean_type no_entries

abbrev pub session_liveness_event_type : Entries
session_liveness_event_type =
    entry "session" false string_type (entry "alive" false boolean_type no_entries)

abbrev pub session_title_set_type : Entries
session_title_set_type =
    entry "id" false string_type
      (entry "session" false string_type (entry "title" false string_type no_entries))

abbrev pub claude_session_list_response_type : Entries
claude_session_list_response_type = entry "id" false string_type (
    entry "claudeSessions" false (array_type (object_type claude_session_info_object))
      (entry "liveSessionsResolved" true boolean_type no_entries))

abbrev pub session_search_request_type : Entries
session_search_request_type =
    entry "id" false string_type
      (entry "query" false string_type (entry "limit" true number_type no_entries))

abbrev pub session_search_response_type : Entries
session_search_response_type =
    entry "id" false string_type
      (entry "results" false (array_type (object_type session_search_result_object)) no_entries)
