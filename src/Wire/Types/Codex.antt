-- ===== src/Wire/Types/Codex.antt =====
-- The messages of src/protocol/messages.ts: the properties but for `type` and `v`.
use tailii_host.Prelude.{[], ◌∷◌, true, false}
use tailii_host.Wire.Shapes.{
  string_type, number_type, boolean_type, literals, array_type, object_type, Entries, no_entries,
  entry,
}
use tailii_host.Wire.Types.Names.{
  codex_collaboration_mode, codex_goal_action, official_app_provider, official_app_action,
  official_app_state, official_app_outcome,
}
use tailii_host.Wire.Types.Infos.{
  codex_model_info_object, claude_model_info_object, codex_goal_info_object,
}

abbrev pub codex_model_list_request_type : Entries
codex_model_list_request_type = entry "id" false string_type no_entries

abbrev pub codex_model_list_response_type : Entries
codex_model_list_response_type =
    entry "id" false string_type
      (entry "models" false (array_type (object_type codex_model_info_object)) no_entries)

abbrev pub codex_model_set_request_type : Entries
codex_model_set_request_type =
    entry "id" false string_type
      (entry "session" false string_type (entry "model" false string_type no_entries))

abbrev pub codex_model_set_response_type : Entries
codex_model_set_response_type = entry "id" false string_type (
    entry "model" false string_type (
      entry "status" false (literals ("updated" ∷ "failed" ∷ []))
        (entry "error" true string_type no_entries)))

abbrev pub claude_model_list_request_type : Entries
claude_model_list_request_type = entry "id" false string_type no_entries

abbrev pub claude_model_list_response_type : Entries
claude_model_list_response_type =
    entry "id" false string_type
      (entry "models" false (array_type (object_type claude_model_info_object)) no_entries)

abbrev pub official_app_status_request_type : Entries
official_app_status_request_type =
    entry "id" false string_type
      (entry "session" false string_type (entry "provider" false official_app_provider no_entries))

abbrev pub official_app_status_response_type : Entries
official_app_status_response_type = entry "id" false string_type (
    entry "provider" false official_app_provider (
      entry "version" true string_type (
        entry "state" false official_app_state (
          entry "canOpen" false boolean_type (
            entry "canStart" false boolean_type (
              entry "launchUrl" true string_type
                (entry "unavailableReason" true string_type no_entries)))))))

abbrev pub official_app_action_request_type : Entries
official_app_action_request_type = entry "id" false string_type (
    entry "session" false string_type (
      entry "provider" false official_app_provider (
        entry "action" false official_app_action (
          entry "automaticEnable" false boolean_type
            (entry "paired" false boolean_type no_entries)))))

abbrev pub official_app_action_response_type : Entries
official_app_action_response_type = entry "id" false string_type (
    entry "provider" false official_app_provider (
      entry "outcome" false official_app_outcome (
        entry "launchUrl" true string_type (
          entry "manualPairingCode" true string_type (
            entry "expiresAt" true number_type
              (entry "unavailableReason" true string_type no_entries))))))

abbrev pub codex_turn_start_type : Entries
codex_turn_start_type = entry "id" false string_type (
    entry "session" false string_type (
      entry "text" false string_type (
        entry "clientUserMessageId" true string_type (
          entry "effort" true string_type (
            entry "approvalPolicy" true (literals ("untrusted" ∷ "on-request" ∷ "never" ∷ [])) (
              entry "sandbox" true
                (literals ("read-only" ∷ "workspace-write" ∷ "danger-full-access" ∷ []))
                (entry "explicitRetry" true boolean_type
                  (entry "collaborationMode" true codex_collaboration_mode no_entries))))))))

abbrev pub codex_turn_start_result_type : Entries
codex_turn_start_result_type = entry "id" false string_type (
    entry "status" false (literals ("started" ∷ "duplicate" ∷ "failed" ∷ []))
      (entry "error" true string_type no_entries))

abbrev pub codex_turn_interrupt_type : Entries
codex_turn_interrupt_type =
    entry "id" false string_type (entry "session" false string_type no_entries)

abbrev pub codex_goal_request_type : Entries
codex_goal_request_type = entry "id" false string_type (
    entry "session" false string_type (
      entry "action" false codex_goal_action (
        entry "objective" true string_type
          (entry "status" true string_type (entry "tokenBudget" true number_type no_entries)))))

abbrev pub codex_goal_response_type : Entries
codex_goal_response_type = entry "id" false string_type (
    entry "status" false (literals ("ok" ∷ "failed" ∷ [])) (
      entry "goal" true (object_type codex_goal_info_object)
        (entry "cleared" true boolean_type (entry "error" true string_type no_entries))))

abbrev pub codex_goal_state_type : Entries
codex_goal_state_type =
    entry "session" false string_type
      (entry "goal" true (object_type codex_goal_info_object) no_entries)

abbrev pub codex_thread_title_set_type : Entries
codex_thread_title_set_type =
    entry "id" false string_type
      (entry "threadId" false string_type (entry "title" false string_type no_entries))
