-- ===== src/Wire/Types/Chat.antt =====
-- The messages of src/protocol/messages.ts: the properties but for `type` and `v`.
use tailii_host.Prelude.{[], ◌∷◌, true, false}
use tailii_host.Wire.Shapes.{
  string_type, number_type, boolean_type, literals, array_type, Entries, no_entries, entry,
}
use tailii_host.Wire.Types.Names.{chat_role}

abbrev pub chat_send_type : Entries
chat_send_type = entry "id" false string_type (
    entry "session" false string_type (
      entry "clientMessageId" false string_type (
        entry "text" false string_type (
          entry "explicitRetry" true boolean_type
            (entry "cancelQuestionId" true string_type no_entries)))))

abbrev pub chat_send_result_type : Entries
chat_send_result_type = entry "id" false string_type (
    entry "status" false (literals ("accepted" ∷ "duplicate" ∷ "failed" ∷ []))
      (entry "error" true string_type no_entries))

abbrev pub pending_message_delete_type : Entries
pending_message_delete_type = entry "id" false string_type (
    entry "session" false string_type (
      entry "clientMessageId" false string_type
        (entry "kind" false (literals ("chat" ∷ "codex" ∷ [])) no_entries)))

abbrev pub pending_message_delete_result_type : Entries
pending_message_delete_result_type = entry "id" false string_type (
    entry "status" false (literals ("deleted" ∷ "not_found" ∷ "processing" ∷ "failed" ∷ []))
      (entry "error" true string_type no_entries))

abbrev pub chat_receipt_query_type : Entries
chat_receipt_query_type =
    entry "id" false string_type
      (entry "session" false string_type (entry "clientMessageId" false string_type no_entries))

abbrev pub chat_receipt_query_result_type : Entries
chat_receipt_query_result_type = entry "id" false string_type (
    entry "status" false
      (literals ("delivered" ∷ "deleted" ∷ "uncertain" ∷ "pending" ∷ "unknown" ∷ [])) no_entries)

abbrev pub chat_send_now_type : Entries
chat_send_now_type = entry "id" false string_type (entry "session" false string_type no_entries)

abbrev pub chat_send_now_result_type : Entries
chat_send_now_result_type = entry "id" false string_type (
    entry "status" false (literals ("sent" ∷ "nothing_queued" ∷ "blocked" ∷ "failed" ∷ []))
      (entry "error" true string_type no_entries))

abbrev pub history_page_request_type : Entries
history_page_request_type = entry "id" false string_type (
    entry "name" false string_type (
      entry "beforeStreamId" true string_type
        (entry "beforeToolId" true string_type (entry "limit" false number_type no_entries))))

abbrev pub history_page_response_type : Entries
history_page_response_type = entry "id" false string_type (
    entry "lines" false (array_type (string_type)) (
      entry "hasMore" false boolean_type
        (entry "hostNowMs" false number_type (entry "anchorMissing" true boolean_type no_entries))))

abbrev pub chat_stream_alias_type : Entries
chat_stream_alias_type =
    entry "streamId" false string_type
      (entry "aliasStreamIds" false (array_type (string_type)) no_entries)

abbrev pub chat_output_type : Entries
chat_output_type = entry "streamId" false string_type (
    entry "role" false chat_role
      (entry "text" false string_type (entry "eof" false boolean_type no_entries)))

abbrev pub session_chat_stream_alias_type : Entries
session_chat_stream_alias_type = entry "session" false string_type (
    entry "serverSeq" false number_type (
      entry "streamId" false string_type
        (entry "aliasStreamIds" false (array_type (string_type)) no_entries)))

abbrev pub session_chat_output_type : Entries
session_chat_output_type = entry "session" false string_type (
    entry "serverSeq" false number_type (
      entry "streamId" false string_type (
        entry "role" false chat_role
          (entry "text" false string_type (entry "eof" false boolean_type no_entries)))))

abbrev pub conversation_delete_type : Entries
conversation_delete_type = entry "id" false string_type (
    entry "sessionId" false string_type
      (entry "agent" false (literals ("claude" ∷ "codex" ∷ [])) no_entries))
