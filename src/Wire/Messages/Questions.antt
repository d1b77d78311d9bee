-- ===== src/Wire/Messages/Questions.antt =====
-- The messages on questions and on the pane.
use tailii_host.Prelude.{List, [], ◌∷◌, refl}
use tailii_host.Wire.Kinds.{any_number}
use tailii_host.Wire.Readers.{
  the, require_string, optional_string, require_number, require_boolean, require_one_of,
  optional_only, string_or_else_null, boolean_or_else_false,
}
use tailii_host.Wire.Arrays.{require_array}
use tailii_host.Wire.Parts.{Part, at}
use tailii_host.Wire.Objects.{object}

abbrev pub question_option : List Part
question_option =
    at "label" require_string ∷ at "description" require_string ∷ at "preview" optional_string ∷ []

abbrev pub question : List Part
question =
    at "header" require_string
    ∷ at "question" require_string
    ∷ at "multiSelect" require_boolean
    ∷ at "options" (require_array (object question_option refl))
    ∷ []

abbrev pub question_prompt : List Part
question_prompt =
    at "id" require_string ∷ at "questions" (require_array (object question refl)) ∷ []

abbrev pub answer : List Part
answer =
    at "questionIndex" require_number
    ∷ at "selectedOptionIndexes" (require_array (the any_number))
    ∷ at "otherText" optional_string
    ∷ at "multiSelect" boolean_or_else_false
    ∷ []

abbrev pub question_answer : List Part
question_answer =
    at "id" require_string
    ∷ at "session" require_string
    ∷ at "answers" (require_array (object answer refl))
    ∷ []

abbrev pub pane_preview : List Part
pane_preview =
    at "session" require_string
    ∷ at "seq" require_number
    ∷ at "active" require_boolean
    ∷ at "text" require_string
    ∷ at "mode" (optional_only "codex_terminal")
    ∷ []

-- `input_suggestion`, `input_residue`, `chat_prompt_cancelled`.
abbrev pub input_suggestion : List Part
input_suggestion = at "session" require_string ∷ at "text" require_string ∷ []

-- `pane_choice_send`, `pane_key_send`.
abbrev pub pane_choice_send : List Part
pane_choice_send =
    at "id" require_string ∷ at "session" require_string ∷ at "key" require_string ∷ []

abbrev pub input_residue_action : List Part
input_residue_action =
    at "id" require_string
    ∷ at "session" require_string
    ∷ at "action" (require_one_of ("submit" ∷ "clear" ∷ []))
    ∷ at "text" require_string
    ∷ []

abbrev pub login_code_send : List Part
login_code_send =
    at "id" require_string ∷ at "session" require_string ∷ at "code" require_string ∷ []

-- `pane_choice_send_result`, `pane_key_send_result`, `input_residue_action_result`,
-- `login_code_send_result`, `session_title_set_result`, `codex_thread_title_set_result`,
-- `conversation_delete_result`.
abbrev pub pane_choice_send_result : List Part
pane_choice_send_result =
    at "id" require_string ∷ at "ok" require_boolean ∷ at "error" string_or_else_null ∷ []

abbrev pub mode_get : List Part
mode_get = at "id" require_string ∷ at "session" require_string ∷ []

abbrev pub mode_set : List Part
mode_set = at "id" require_string ∷ at "session" require_string ∷ at "mode" require_string ∷ []

abbrev pub mode_set_response : List Part
mode_set_response = at "id" require_string ∷ at "mode" require_string ∷ []
