-- ===== src/Wire/Types/Servers.antt =====
-- The messages of src/protocol/messages.ts: the properties but for `type` and `v`.
use tailii_host.Prelude.{false}
use tailii_host.Wire.Shapes.{
  string_type, number_type, boolean_type, nullable, array_type, object_type, Entries, no_entries,
  entry,
}
use tailii_host.Wire.Types.Objects.{serve_process_info_object}

abbrev pub preview_open_type : Entries
preview_open_type = entry "id" false string_type (entry "target" false string_type no_entries)

abbrev pub preview_ready_type : Entries
preview_ready_type = entry "id" false string_type (entry "url" false string_type no_entries)

abbrev pub preview_error_type : Entries
preview_error_type = entry "id" false string_type (entry "message" false string_type no_entries)

abbrev pub preview_close_type : Entries
preview_close_type = entry "id" false string_type no_entries

abbrev pub serve_list_request_type : Entries
serve_list_request_type = entry "id" false string_type no_entries

abbrev pub serve_list_response_type : Entries
serve_list_response_type =
    entry "id" false string_type
      (entry "servers" false (array_type (object_type serve_process_info_object)) no_entries)

abbrev pub serve_stop_request_type : Entries
serve_stop_request_type =
    entry "id" false string_type
      (entry "pid" false number_type (entry "port" false number_type no_entries))

abbrev pub serve_stop_response_type : Entries
serve_stop_response_type =
    entry "id" false string_type
      (entry "ok" false boolean_type (entry "error" false (nullable (string_type)) no_entries))
