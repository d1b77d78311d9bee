-- ===== src/Wire/Types/Infos.antt =====
-- The object types of src/protocol/messages.ts, on files, models, questions and usage.
use tailii_host.Prelude.{[], ◌∷◌, true, false}
use tailii_host.Wire.Shapes.{
  string_type, number_type, boolean_type, literals, nullable, array_type, object_type, Entries,
  no_entries, entry,
}
use tailii_host.Wire.Types.Names.{subagent_transcript_role, subagent_transcript_kind}

abbrev pub remote_pending_snapshot_item_object : Entries
remote_pending_snapshot_item_object = entry "id" false string_type (
    entry "session" false string_type
      (entry "tool" true string_type (entry "summary" false string_type no_entries)))

abbrev pub codex_model_info_object : Entries
codex_model_info_object = entry "id" false string_type (
    entry "displayName" false string_type (
      entry "description" false string_type (
        entry "contextWindow" true number_type (
          entry "defaultReasoningEffort" true string_type (
            entry "supportedReasoningEfforts" true (array_type (string_type))
              (entry "isDefault" false boolean_type no_entries))))))

abbrev pub claude_model_info_object : Entries
claude_model_info_object =
    entry "id" false string_type
      (entry "displayName" false string_type (entry "isDefault" true boolean_type no_entries))

abbrev pub codex_goal_info_object : Entries
codex_goal_info_object = entry "threadId" false string_type (
    entry "objective" false string_type (
      entry "status" false string_type (
        entry "tokenBudget" true number_type (
          entry "tokensUsed" false number_type (
            entry "timeUsedSeconds" false number_type (
              entry "createdAt" false number_type
                (entry "updatedAt" false number_type no_entries)))))))

abbrev pub subagent_transcript_entry_object : Entries
subagent_transcript_entry_object = entry "role" false subagent_transcript_role (
    entry "text" false string_type
      (entry "ts" true number_type (entry "kind" true subagent_transcript_kind no_entries)))

abbrev pub question_option_object : Entries
question_option_object =
    entry "label" false string_type
      (entry "description" false string_type (entry "preview" true string_type no_entries))

abbrev pub question_prompt_question_object : Entries
question_prompt_question_object = entry "header" false string_type (
    entry "question" false string_type (
      entry "multiSelect" false boolean_type
        (entry "options" false (array_type (object_type question_option_object)) no_entries)))

abbrev pub question_answer_object : Entries
question_answer_object = entry "questionIndex" false number_type (
    entry "selectedOptionIndexes" false (array_type (number_type))
      (entry "otherText" true string_type (entry "multiSelect" false boolean_type no_entries)))

abbrev pub claude_account_usage_object : Entries
claude_account_usage_object = entry "fiveHourPercent" true number_type (
    entry "fiveHourResetsAt" true string_type (
      entry "sevenDayPercent" true number_type (
        entry "sevenDayResetsAt" true string_type (
          entry "premiumPercent" true number_type (
            entry "premiumResetsAt" true string_type (
              entry "plan" true string_type (
                entry "rateLimitTier" true string_type
                  (entry "account" true string_type no_entries))))))))

abbrev pub codex_account_usage_object : Entries
codex_account_usage_object = entry "planType" true string_type (
    entry "fiveHourPercent" true number_type (
      entry "fiveHourResetsAt" true string_type (
        entry "weeklyPercent" true number_type
          (entry "weeklyResetsAt" true string_type (entry "account" true string_type no_entries)))))

abbrev pub host_diagnostic_check_object : Entries
host_diagnostic_check_object = entry "id" false string_type (
    entry "label" false string_type (
      entry "ok" false boolean_type (
        entry "required" false boolean_type
          (entry "detail" false string_type (entry "remediation" true string_type no_entries)))))

abbrev pub host_versions_object : Entries
host_versions_object = entry "hostVersion" true string_type (
    entry "claudeCliVersion" true string_type (
      entry "codexCliVersion" true string_type (
        entry "diagnostics" true (array_type (object_type host_diagnostic_check_object))
          no_entries)))

abbrev pub file_entry_object : Entries
file_entry_object = entry "name" false string_type (
    entry "kind" false (literals ("dir" ∷ "file" ∷ "symlink" ∷ [])) (
      entry "size" false number_type
        (entry "mtimeMs" false number_type (entry "gitStatus" true string_type no_entries))))

abbrev pub git_status_file_object : Entries
git_status_file_object = entry "path" false string_type (
    entry "indexStatus" false string_type (
      entry "worktreeStatus" false string_type
        (entry "renamedFrom" false (nullable (string_type)) no_entries)))

abbrev pub git_commit_info_object : Entries
git_commit_info_object = entry "hash" false string_type (
    entry "shortHash" false string_type (
      entry "subject" false string_type
        (entry "authorName" false string_type (entry "dateMs" false number_type no_entries))))

abbrev pub git_branch_info_object : Entries
git_branch_info_object = entry "name" false string_type (
    entry "subject" false string_type (
      entry "dateMs" false number_type (
        entry "isCurrent" false boolean_type
          (entry "ahead" false number_type (entry "behind" false number_type no_entries)))))

abbrev pub background_sync_hint_object : Entries
background_sync_hint_object =
    entry "session" false string_type (entry "newerThanMs" false number_type no_entries)
