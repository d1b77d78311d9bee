-- ===== src/Wire/Types/Files.antt =====
-- The messages of src/protocol/messages.ts: the properties but for `type` and `v`.
use tailii_host.Prelude.{[], ◌∷◌, true, false}
use tailii_host.Wire.Shapes.{
  string_type, number_type, boolean_type, literals, array_type, object_type, Entries, no_entries,
  entry,
}
use tailii_host.Wire.Types.Objects.{slash_command_info_object, peer_session_info_object}
use tailii_host.Wire.Types.Infos.{file_entry_object}

abbrev pub image_available_type : Entries
image_available_type = entry "id" false string_type (
    entry "path" false string_type (
      entry "mime" false string_type (
        entry "thumbnail" false string_type (
          entry "width" false number_type (
            entry "height" false number_type
              (entry "relatedApprovalId" true string_type no_entries))))))

abbrev pub image_fetch_request_type : Entries
image_fetch_request_type =
    entry "id" false string_type (entry "maxPixelSize" true number_type no_entries)

abbrev pub image_fetch_response_type : Entries
image_fetch_response_type = entry "id" false string_type (
    entry "seq" false number_type (
      entry "data" false string_type
        (entry "eof" false boolean_type (entry "mime" false string_type no_entries))))

abbrev pub question_dismiss_type : Entries
question_dismiss_type = entry "id" false string_type no_entries

abbrev pub account_usage_request_type : Entries
account_usage_request_type = entry "id" false string_type no_entries

abbrev pub slash_list_request_type : Entries
slash_list_request_type = entry "id" false string_type (entry "cwd" true string_type no_entries)

abbrev pub slash_list_response_type : Entries
slash_list_response_type =
    entry "id" false string_type
      (entry "commands" false (array_type (object_type slash_command_info_object)) no_entries)

abbrev pub peer_session_list_request_type : Entries
peer_session_list_request_type = entry "id" false string_type no_entries

abbrev pub peer_session_list_response_type : Entries
peer_session_list_response_type =
    entry "id" false string_type
      (entry "peers" false (array_type (object_type peer_session_info_object)) no_entries)

abbrev pub dir_list_request_type : Entries
dir_list_request_type =
    entry "id" false string_type
      (entry "baseDir" false string_type (entry "partial" false string_type no_entries))

abbrev pub dir_list_response_type : Entries
dir_list_response_type =
    entry "id" false string_type (entry "entries" false (array_type (string_type)) no_entries)

abbrev pub browse_request_type : Entries
browse_request_type = entry "id" false string_type (entry "path" false string_type no_entries)

abbrev pub browse_response_type : Entries
browse_response_type = entry "id" false string_type (
    entry "path" false string_type (
      entry "entries" false (array_type (string_type))
        (entry "canCreateDirectory" true boolean_type no_entries)))

abbrev pub file_list_request_type : Entries
file_list_request_type = entry "id" false string_type (entry "path" false string_type no_entries)

abbrev pub file_list_response_type : Entries
file_list_response_type = entry "id" false string_type (
    entry "path" false string_type (
      entry "entries" false (array_type (object_type file_entry_object))
        (entry "truncated" false boolean_type no_entries)))

abbrev pub file_read_request_type : Entries
file_read_request_type = entry "id" false string_type (entry "path" false string_type no_entries)

abbrev pub file_read_response_type : Entries
file_read_response_type = entry "id" false string_type (
    entry "path" false string_type (
      entry "kind" false (literals ("text" ∷ "image" ∷ "binary" ∷ "tooLarge" ∷ "error" ∷ [])) (
        entry "size" false number_type (
          entry "mtimeMs" false number_type (
            entry "content" true string_type (
              entry "truncated" true boolean_type (
                entry "imageBase64" true string_type (
                  entry "imageFormat" true string_type
                    (entry "error" true string_type no_entries)))))))))

abbrev pub file_search_request_type : Entries
file_search_request_type = entry "id" false string_type (
    entry "path" false string_type
      (entry "query" false string_type (entry "limit" true number_type no_entries)))

abbrev pub file_search_response_type : Entries
file_search_response_type = entry "id" false string_type (
    entry "path" false string_type (
      entry "query" false string_type (
        entry "entries" false (array_type (object_type file_entry_object))
          (entry "truncated" false boolean_type no_entries))))

abbrev pub file_fetch_request_type : Entries
file_fetch_request_type =
    entry "id" false string_type
      (entry "path" false string_type (entry "offset" true number_type no_entries))

abbrev pub file_fetch_cancel_type : Entries
file_fetch_cancel_type = entry "id" false string_type no_entries

abbrev pub file_fetch_response_type : Entries
file_fetch_response_type = entry "id" false string_type (
    entry "seq" false number_type (
      entry "data" false string_type (
        entry "eof" false boolean_type (
          entry "mime" true string_type (
            entry "name" true string_type (
              entry "size" true number_type
                (entry "error" true string_type (entry "offset" true number_type no_entries))))))))

abbrev pub claude_session_list_request_type : Entries
claude_session_list_request_type = entry "id" false string_type no_entries

abbrev pub dir_create_request_type : Entries
dir_create_request_type =
    entry "id" false string_type
      (entry "baseDir" false string_type (entry "relative" false string_type no_entries))

abbrev pub dir_create_response_type : Entries
dir_create_response_type = entry "id" false string_type (
    entry "path" false string_type
      (entry "ok" false boolean_type (entry "error" true string_type no_entries)))
