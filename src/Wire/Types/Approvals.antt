-- ===== src/Wire/Types/Approvals.antt =====
-- The messages of src/protocol/messages.ts: the properties but for `type` and `v`.
use tailii_host.Prelude.{true, false}
use tailii_host.Wire.Shapes.{
  string_type, number_type, boolean_type, nullable, array_type, object_type, Entries, no_entries,
  entry,
}
use tailii_host.Wire.Types.Names.{
  decision, remote_pending_kind, host_update_status, background_command_stop_status,
  terminal_backend_kind,
}
use tailii_host.Wire.Types.Objects.{tool_diff_object}
use tailii_host.Wire.Types.Infos.{remote_pending_snapshot_item_object, background_sync_hint_object}

abbrev pub channel_hello_type : Entries
channel_hello_type = entry "maxVersion" false number_type (
    entry "serverVersion" true string_type (
      entry "hostName" true string_type (
        entry "managed" true boolean_type (
          entry "updateError" true string_type (
            entry "clientVersion" true string_type (
              entry "clientBuild" true string_type
                (entry "latestClientBuild" true string_type no_entries)))))))

abbrev pub host_update_request_type : Entries
host_update_request_type =
    entry "id" false string_type
      (entry "version" false string_type (entry "integrity" true string_type no_entries))

abbrev pub host_update_response_type : Entries
host_update_response_type = entry "id" false string_type (
    entry "status" false host_update_status
      (entry "error" true (nullable (string_type)) no_entries))

abbrev pub approval_request_type : Entries
approval_request_type = entry "id" false string_type (
    entry "tool" false string_type (
      entry "summary" false string_type (
        entry "cwd" false string_type
          (entry "diff" true (object_type tool_diff_object) no_entries))))

abbrev pub approval_decision_type : Entries
approval_decision_type =
    entry "id" false string_type
      (entry "decision" false decision (entry "reason" true string_type no_entries))

abbrev pub remote_pending_type : Entries
remote_pending_type = entry "id" false string_type (
    entry "session" false string_type (
      entry "kind" false remote_pending_kind
        (entry "tool" true string_type (entry "summary" false string_type no_entries))))

abbrev pub remote_pending_cleared_type : Entries
remote_pending_cleared_type =
    entry "id" false string_type
      (entry "session" false string_type (entry "kind" false remote_pending_kind no_entries))

abbrev pub remote_pending_snapshot_type : Entries
remote_pending_snapshot_type =
    entry "kind" false remote_pending_kind (
      entry "items" false (array_type (object_type remote_pending_snapshot_item_object)) no_entries)

abbrev pub error_type : Entries
error_type =
    entry "id" true string_type
      (entry "code" false string_type (entry "message" false string_type no_entries))

abbrev pub background_sync_hints_type : Entries
background_sync_hints_type =
    entry "sessions" false (array_type (object_type background_sync_hint_object)) no_entries

abbrev pub background_command_stop_request_type : Entries
background_command_stop_request_type =
    entry "id" false string_type (entry "nodeId" false string_type no_entries)

abbrev pub background_command_stop_response_type : Entries
background_command_stop_response_type = entry "id" false string_type (
    entry "nodeId" false string_type (
      entry "status" false background_command_stop_status
        (entry "error" true string_type no_entries)))

abbrev pub backend_get_request_type : Entries
backend_get_request_type = entry "id" false string_type no_entries

abbrev pub backend_get_response_type : Entries
backend_get_response_type = entry "id" false string_type (
    entry "backend" false terminal_backend_kind
      (entry "herdrInstalled" false boolean_type no_entries))

abbrev pub backend_set_request_type : Entries
backend_set_request_type =
    entry "id" false string_type (entry "backend" false terminal_backend_kind no_entries)

abbrev pub backend_set_response_type : Entries
backend_set_response_type = entry "id" false string_type (
    entry "ok" false boolean_type (
      entry "backend" false terminal_backend_kind
        (entry "error" false (nullable (string_type)) no_entries)))
