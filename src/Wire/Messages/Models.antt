-- ===== src/Wire/Messages/Models.antt =====
-- The messages on the models of Codex and Claude.
use tailii_host.Prelude.{List, [], ◌∷◌, refl, none}
use tailii_host.Wire.Kinds.{a_string, a_number, from}
use tailii_host.Wire.Readers.{
  the, optional_where, unless_undefined, require_string, optional_string, require_boolean,
  optional_boolean, require_one_of,
}
use tailii_host.Wire.Arrays.{array_slice, require_array}
use tailii_host.Wire.Parts.{Part, at}
use tailii_host.Wire.Objects.{object}

abbrev pub codex_model_list_request : List Part
codex_model_list_request = at "id" require_string ∷ []

abbrev pub codex_model_info : List Part
codex_model_info =
    at "id" require_string
    ∷ at "displayName" require_string
    ∷ at "description" require_string
    ∷ at "contextWindow" (optional_where a_number (from 1))
    ∷ at "defaultReasoningEffort" optional_string
    ∷ at "supportedReasoningEfforts" (unless_undefined (array_slice none (the a_string)))
    ∷ at "isDefault" require_boolean
    ∷ []

abbrev pub codex_model_list_response : List Part
codex_model_list_response =
    at "id" require_string ∷ at "models" (require_array (object codex_model_info refl)) ∷ []

abbrev pub codex_model_set_request : List Part
codex_model_set_request =
    at "id" require_string ∷ at "session" require_string ∷ at "model" require_string ∷ []

abbrev pub codex_model_set_response : List Part
codex_model_set_response =
    at "id" require_string
    ∷ at "model" require_string
    ∷ at "status" (require_one_of ("updated" ∷ "failed" ∷ []))
    ∷ at "error" optional_string
    ∷ []

abbrev pub claude_model_list_request : List Part
claude_model_list_request = at "id" require_string ∷ []

abbrev pub claude_model_info : List Part
claude_model_info =
    at "id" require_string ∷ at "displayName" require_string ∷ at "isDefault" optional_boolean ∷ []

abbrev pub claude_model_list_response : List Part
claude_model_list_response =
    at "id" require_string ∷ at "models" (require_array (object claude_model_info refl)) ∷ []
