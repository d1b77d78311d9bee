-- ===== src/Wire/Messages/Servers.antt =====
-- The messages on previews and local servers.
use tailii_host.Prelude.{List, [], ◌∷◌, refl}
use tailii_host.Wire.Readers.{
  require_string, optional_string, require_number, require_boolean, string_or_else_null,
}
use tailii_host.Wire.Arrays.{require_array}
use tailii_host.Wire.Parts.{Part, at}
use tailii_host.Wire.Objects.{object}

abbrev pub preview_open : List Part
preview_open = at "id" require_string ∷ at "target" require_string ∷ []

abbrev pub preview_ready : List Part
preview_ready = at "id" require_string ∷ at "url" require_string ∷ []

abbrev pub preview_error : List Part
preview_error = at "id" require_string ∷ at "message" require_string ∷ []

abbrev pub preview_close : List Part
preview_close = at "id" require_string ∷ []

abbrev pub serve_list_request : List Part
serve_list_request = at "id" require_string ∷ []

abbrev pub serve_process_info : List Part
serve_process_info =
    at "pid" require_number
    ∷ at "port" require_number
    ∷ at "command" require_string
    ∷ at "commandLine" optional_string
    ∷ at "cwd" optional_string
    ∷ at "title" optional_string
    ∷ []

abbrev pub serve_list_response : List Part
serve_list_response =
    at "id" require_string ∷ at "servers" (require_array (object serve_process_info refl)) ∷ []

abbrev pub serve_stop_request : List Part
serve_stop_request =
    at "id" require_string ∷ at "pid" require_number ∷ at "port" require_number ∷ []

abbrev pub serve_stop_response : List Part
serve_stop_response =
    at "id" require_string ∷ at "ok" require_boolean ∷ at "error" string_or_else_null ∷ []
