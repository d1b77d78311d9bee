-- ===== src/Wire/Types/Usage.antt =====
-- The messages of src/protocol/messages.ts: the properties but for `type` and `v`.
use tailii_host.Prelude.{[], ◌∷◌, true, false}
use tailii_host.Wire.Shapes.{
  string_type, number_type, literals, object_type, Entries, no_entries, entry,
}
use tailii_host.Wire.Types.Infos.{
  claude_account_usage_object, codex_account_usage_object, host_versions_object,
}

abbrev pub usage_request_type : Entries
usage_request_type =
    entry "id" false string_type
      (entry "agentType" true (literals ("claude" ∷ "codex" ∷ [])) no_entries)

abbrev pub usage_response_type : Entries
usage_response_type = entry "id" false string_type (
    entry "inputTokens" false number_type (
      entry "outputTokens" false number_type (
        entry "cacheReadTokens" false number_type (
          entry "cacheCreationTokens" false number_type (
            entry "turns" false number_type (
              entry "fiveHourUtilization" true number_type (
                entry "fiveHourResetsAt" true string_type (
                  entry "sevenDayUtilization" true number_type (
                    entry "sevenDayResetsAt" true string_type (
                      entry "sevenDayFableUtilization" true number_type
                        (entry "sevenDayFableResetsAt" true string_type no_entries)))))))))))

abbrev pub account_usage_response_type : Entries
account_usage_response_type = entry "id" false string_type (
    entry "claude" true (object_type claude_account_usage_object) (
      entry "codex" true (object_type codex_account_usage_object) (
        entry "claudeError" true string_type (
          entry "codexError" true string_type (
            entry "host" true (object_type host_versions_object)
              (entry "fetchedAt" true string_type no_entries))))))
