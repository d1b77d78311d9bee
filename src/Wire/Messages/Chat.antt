-- ===== src/Wire/Messages/Chat.antt =====
-- The messages of the chat and of its history.
use tailii_host.Prelude.{List, [], ◌∷◌}
use tailii_host.Wire.Kinds.{non_empty, the_true}
use tailii_host.Wire.Readers.{
  the, required, optional, require_string, optional_string, require_number, require_boolean,
  optional_boolean, require_one_of,
}
use tailii_host.Wire.Arrays.{require_string_array}
use tailii_host.Wire.Parts.{Part, at}
use tailii_host.Wire.Choices.{history_page_limit}

abbrev pub chat_send : List Part
chat_send =
    at "id" require_string
    ∷ at "session" require_string
    ∷ at "clientMessageId" require_string
    ∷ at "text" (required (the non_empty))
    ∷ at "explicitRetry" optional_boolean
    ∷ at "cancelQuestionId" optional_string
    ∷ []

abbrev pub chat_send_result : List Part
chat_send_result =
    at "id" require_string
    ∷ at "status" (require_one_of ("accepted" ∷ "duplicate" ∷ "failed" ∷ []))
    ∷ at "error" optional_string
    ∷ []

abbrev pub pending_message_delete : List Part
pending_message_delete =
    at "id" require_string
    ∷ at "session" require_string
    ∷ at "clientMessageId" require_string
    ∷ at "kind" (require_one_of ("chat" ∷ "codex" ∷ []))
    ∷ []

abbrev pub pending_message_delete_result : List Part
pending_message_delete_result =
    at "id" require_string
    ∷ at "status" (require_one_of ("deleted" ∷ "not_found" ∷ "processing" ∷ "failed" ∷ []))
    ∷ at "error" optional_string
    ∷ []

abbrev pub chat_receipt_query : List Part
chat_receipt_query =
    at "id" require_string ∷ at "session" require_string ∷ at "clientMessageId" require_string ∷ []

abbrev pub chat_receipt_query_result : List Part
chat_receipt_query_result =
    at "id" require_string
    ∷ at "status"
        (require_one_of ("delivered" ∷ "deleted" ∷ "uncertain" ∷ "pending" ∷ "unknown" ∷ []))
    ∷ []

abbrev pub chat_send_now : List Part
chat_send_now = at "id" require_string ∷ at "session" require_string ∷ []

abbrev pub chat_send_now_result : List Part
chat_send_now_result =
    at "id" require_string
    ∷ at "status" (require_one_of ("sent" ∷ "nothing_queued" ∷ "blocked" ∷ "failed" ∷ []))
    ∷ at "error" optional_string
    ∷ []

abbrev pub chat_stream_alias : List Part
chat_stream_alias = at "streamId" require_string ∷ at "aliasStreamIds" require_string_array ∷ []

abbrev pub chat_output : List Part
chat_output =
    at "streamId" require_string
    ∷ at "role" (require_one_of ("assistant" ∷ "user" ∷ "system" ∷ []))
    ∷ at "text" require_string
    ∷ at "eof" require_boolean
    ∷ []

abbrev pub session_chat_stream_alias : List Part
session_chat_stream_alias =
    at "session" require_string
    ∷ at "serverSeq" require_number
    ∷ at "streamId" require_string
    ∷ at "aliasStreamIds" require_string_array
    ∷ []

abbrev pub session_chat_output : List Part
session_chat_output =
    at "session" require_string
    ∷ at "serverSeq" require_number
    ∷ at "streamId" require_string
    ∷ at "role" (require_one_of ("assistant" ∷ "user" ∷ "system" ∷ []))
    ∷ at "text" require_string
    ∷ at "eof" require_boolean
    ∷ []

abbrev pub conversation_delete : List Part
conversation_delete =
    at "id" require_string
    ∷ at "sessionId" require_string
    ∷ at "agent" (require_one_of ("claude" ∷ "codex" ∷ []))
    ∷ []

abbrev pub history_page_request : List Part
history_page_request =
    at "id" require_string
    ∷ at "name" require_string
    ∷ at "beforeStreamId" optional_string
    ∷ at "beforeToolId" optional_string
    ∷ at "limit" history_page_limit
    ∷ []

abbrev pub history_page_response : List Part
history_page_response =
    at "id" require_string
    ∷ at "lines" require_string_array
    ∷ at "hasMore" require_boolean
    ∷ at "hostNowMs" require_number
    ∷ at "anchorMissing" (optional the_true)
    ∷ []
