-- ===== src/Wire/Messages/Approvals.antt =====
-- The messages of the connection itself, of approvals and of the terminal backend.
use tailii_host.Prelude.{List, [], ◌∷◌, refl}
use tailii_host.Wire.Kinds.{from}
use tailii_host.Wire.Readers.{
  the, required, require_string, optional_string, require_number, require_boolean, optional_boolean,
  require_one_of, string_or_else_null,
}
use tailii_host.Wire.Arrays.{require_array_upto}
use tailii_host.Wire.Parts.{Part, at}
use tailii_host.Wire.Objects.{object, optional_object}
use tailii_host.Wire.Choices.{
  background_sync_hints_max, remote_pending_snapshot_max, host_update_status, backend_kind,
  remote_pending_kind,
}

abbrev pub channel_hello : List Part
channel_hello =
    at "maxVersion" require_number
    ∷ at "serverVersion" optional_string
    ∷ at "hostName" optional_string
    ∷ at "managed" optional_boolean
    ∷ at "updateError" optional_string
    ∷ at "clientVersion" optional_string
    ∷ at "clientBuild" optional_string
    ∷ at "latestClientBuild" optional_string
    ∷ []

abbrev pub host_update_request : List Part
host_update_request =
    at "id" require_string ∷ at "version" require_string ∷ at "integrity" optional_string ∷ []

abbrev pub host_update_response : List Part
host_update_response =
    at "id" require_string ∷ at "status" host_update_status ∷ at "error" string_or_else_null ∷ []

abbrev pub tool_diff : List Part
tool_diff =
    at "kind" (require_one_of ("create" ∷ "edit" ∷ []))
    ∷ at "path" require_string
    ∷ at "newText" optional_string
    ∷ at "oldString" optional_string
    ∷ at "newString" optional_string
    ∷ []

abbrev pub approval_request : List Part
approval_request =
    at "id" require_string
    ∷ at "tool" require_string
    ∷ at "summary" require_string
    ∷ at "cwd" require_string
    ∷ at "diff" (optional_object tool_diff refl)
    ∷ []

abbrev pub approval_decision : List Part
approval_decision =
    at "id" require_string
    ∷ at "decision" (require_one_of ("allow" ∷ "deny" ∷ []))
    ∷ at "reason" optional_string
    ∷ []

abbrev pub remote_pending : List Part
remote_pending =
    at "id" require_string
    ∷ at "session" require_string
    ∷ at "kind" remote_pending_kind
    ∷ at "tool" optional_string
    ∷ at "summary" require_string
    ∷ []

abbrev pub remote_pending_cleared : List Part
remote_pending_cleared =
    at "id" require_string ∷ at "session" require_string ∷ at "kind" remote_pending_kind ∷ []

abbrev pub remote_pending_snapshot_item : List Part
remote_pending_snapshot_item =
    at "id" require_string
    ∷ at "session" require_string
    ∷ at "tool" optional_string
    ∷ at "summary" require_string
    ∷ []

abbrev pub remote_pending_snapshot : List Part
remote_pending_snapshot =
    at "kind" remote_pending_kind
    ∷ at "items"
        (require_array_upto remote_pending_snapshot_max (object remote_pending_snapshot_item refl))
    ∷ []

abbrev pub error : List Part
error = at "id" optional_string ∷ at "code" require_string ∷ at "message" require_string ∷ []

abbrev pub backend_get_request : List Part
backend_get_request = at "id" require_string ∷ []

abbrev pub backend_get_response : List Part
backend_get_response =
    at "id" require_string ∷ at "backend" backend_kind ∷ at "herdrInstalled" require_boolean ∷ []

abbrev pub backend_set_request : List Part
backend_set_request = at "id" require_string ∷ at "backend" backend_kind ∷ []

abbrev pub backend_set_response : List Part
backend_set_response =
    at "id" require_string
    ∷ at "ok" require_boolean
    ∷ at "backend" backend_kind
    ∷ at "error" string_or_else_null
    ∷ []

abbrev pub background_sync_hint : List Part
background_sync_hint = at "session" require_string ∷ at "newerThanMs" (required (the (from 0))) ∷ []

abbrev pub background_sync_hints : List Part
background_sync_hints =
    at "sessions" (require_array_upto background_sync_hints_max (object background_sync_hint refl))
    ∷ []

abbrev pub background_command_stop_request : List Part
background_command_stop_request = at "id" require_string ∷ at "nodeId" require_string ∷ []

abbrev pub background_command_stop_response : List Part
background_command_stop_response =
    at "id" require_string
    ∷ at "nodeId" require_string
    ∷ at "status" (require_one_of ("stopped" ∷ "not_running" ∷ "not_found" ∷ "failed" ∷ []))
    ∷ at "error" optional_string
    ∷ []
