-- ===== src/Wire/Messages/Files.antt =====
-- The messages on images, files and directories.
use tailii_host.Prelude.{List, [], ◌∷◌, refl}
use tailii_host.Wire.Reading.{Reader}
use tailii_host.Wire.Kinds.{a_number, between}
use tailii_host.Wire.Readers.{
  optional, optional_where, require_string, optional_string, require_number, optional_number,
  require_boolean, optional_boolean, require_one_of,
}
use tailii_host.Wire.Arrays.{require_array, require_string_array}
use tailii_host.Wire.Parts.{Part, at}
use tailii_host.Wire.Objects.{object}
use tailii_host.Wire.Choices.{
  max_safe_integer, image_fetch_min_pixel_size, image_fetch_max_pixel_size,
}

abbrev pub image_available : List Part
image_available =
    at "id" require_string
    ∷ at "path" require_string
    ∷ at "mime" require_string
    ∷ at "thumbnail" require_string
    ∷ at "width" require_number
    ∷ at "height" require_number
    ∷ at "relatedApprovalId" optional_string
    ∷ []

abbrev pub image_fetch_request : List Part
image_fetch_request =
    at "id" require_string
    ∷ at "maxPixelSize" (optional (between image_fetch_min_pixel_size image_fetch_max_pixel_size))
    ∷ []

-- `file_fetch_cancel`, `account_usage_request`, `question_dismiss`, `claude_session_list_request`.
abbrev pub file_fetch_cancel : List Part
file_fetch_cancel = at "id" require_string ∷ []

abbrev pub image_fetch_response : List Part
image_fetch_response =
    at "id" require_string
    ∷ at "seq" require_number
    ∷ at "data" require_string
    ∷ at "eof" require_boolean
    ∷ at "mime" require_string
    ∷ []

abbrev pub slash_list_request : List Part
slash_list_request = at "id" require_string ∷ at "cwd" optional_string ∷ []

abbrev pub slash_command_info : List Part
slash_command_info = at "name" require_string ∷ at "summary" require_string ∷ []

abbrev pub slash_list_response : List Part
slash_list_response =
    at "id" require_string ∷ at "commands" (require_array (object slash_command_info refl)) ∷ []

abbrev pub peer_session_list_request : List Part
peer_session_list_request = at "id" require_string ∷ []

abbrev pub peer_session_info : List Part
peer_session_info =
    at "name" require_string
    ∷ at "cwd" require_string
    ∷ at "sessionId" require_string
    ∷ at "status" optional_string
    ∷ at "bridged" optional_boolean
    ∷ []

abbrev pub peer_session_list_response : List Part
peer_session_list_response =
    at "id" require_string ∷ at "peers" (require_array (object peer_session_info refl)) ∷ []

abbrev pub dir_list_request : List Part
dir_list_request =
    at "id" require_string ∷ at "baseDir" require_string ∷ at "partial" require_string ∷ []

abbrev pub dir_list_response : List Part
dir_list_response = at "id" require_string ∷ at "entries" require_string_array ∷ []

abbrev pub browse_request : List Part
browse_request = at "id" require_string ∷ at "path" require_string ∷ []

abbrev pub browse_response : List Part
browse_response =
    at "id" require_string
    ∷ at "path" require_string
    ∷ at "entries" require_string_array
    ∷ at "canCreateDirectory" optional_boolean
    ∷ []

abbrev pub dir_create_request : List Part
dir_create_request =
    at "id" require_string ∷ at "baseDir" require_string ∷ at "relative" require_string ∷ []

abbrev pub dir_create_response : List Part
dir_create_response =
    at "id" require_string
    ∷ at "path" require_string
    ∷ at "ok" require_boolean
    ∷ at "error" optional_string
    ∷ []

abbrev pub file_entry : List Part
file_entry =
    at "name" require_string
    ∷ at "kind" (require_one_of ("dir" ∷ "file" ∷ "symlink" ∷ []))
    ∷ at "size" require_number
    ∷ at "mtimeMs" require_number
    ∷ at "gitStatus" optional_string
    ∷ []

-- `file_list_request`, `file_read_request`, `file_fetch_request`.
abbrev pub file_list_request : List Part
file_list_request =
    at "id" require_string
    ∷ at "path" require_string
    ∷ at "offset" (optional_where a_number (between 0 max_safe_integer))
    ∷ []

abbrev file_entries : Reader
file_entries = require_array (object file_entry refl)

abbrev pub file_list_response : List Part
file_list_response =
    at "id" require_string
    ∷ at "path" require_string
    ∷ at "entries" file_entries
    ∷ at "truncated" require_boolean
    ∷ []

abbrev pub file_search_request : List Part
file_search_request =
    at "id" require_string
    ∷ at "path" require_string
    ∷ at "query" require_string
    ∷ at "limit" optional_number
    ∷ []

abbrev pub file_search_response : List Part
file_search_response =
    at "id" require_string
    ∷ at "path" require_string
    ∷ at "query" require_string
    ∷ at "entries" file_entries
    ∷ at "truncated" require_boolean
    ∷ []

abbrev pub file_read_response : List Part
file_read_response =
    at "id" require_string
    ∷ at "path" require_string
    ∷ at "kind" (require_one_of ("text" ∷ "image" ∷ "binary" ∷ "tooLarge" ∷ "error" ∷ []))
    ∷ at "size" require_number
    ∷ at "mtimeMs" require_number
    ∷ at "content" optional_string
    ∷ at "truncated" optional_boolean
    ∷ at "imageBase64" optional_string
    ∷ at "imageFormat" optional_string
    ∷ at "error" optional_string
    ∷ []

abbrev pub file_fetch_response : List Part
file_fetch_response =
    at "id" require_string
    ∷ at "seq" require_number
    ∷ at "data" require_string
    ∷ at "eof" require_boolean
    ∷ at "mime" optional_string
    ∷ at "name" optional_string
    ∷ at "size" optional_number
    ∷ at "error" optional_string
    ∷ at "offset" optional_number
    ∷ []
