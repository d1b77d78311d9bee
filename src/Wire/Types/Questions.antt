-- ===== src/Wire/Types/Questions.antt =====
-- The messages of src/protocol/messages.ts: the properties but for `type` and `v`.
use tailii_host.Prelude.{[], ◌∷◌, true, false}
use tailii_host.Wire.Shapes.{
  string_type, number_type, boolean_type, literals, nullable, array_type, object_type, Entries,
  no_entries, entry,
}
use tailii_host.Wire.Types.Infos.{question_prompt_question_object, question_answer_object}

abbrev pub pane_preview_type : Entries
pane_preview_type = entry "session" false string_type (
    entry "seq" false number_type (
      entry "active" false boolean_type (
        entry "text" false string_type
          (entry "mode" true (literals ("codex_terminal" ∷ [])) no_entries))))

abbrev pub input_suggestion_type : Entries
input_suggestion_type =
    entry "session" false string_type (entry "text" false string_type no_entries)

abbrev pub input_residue_type : Entries
input_residue_type = entry "session" false string_type (entry "text" false string_type no_entries)

abbrev pub input_residue_action_type : Entries
input_residue_action_type = entry "id" false string_type (
    entry "session" false string_type (
      entry "action" false (literals ("submit" ∷ "clear" ∷ []))
        (entry "text" false string_type no_entries)))

abbrev pub input_residue_action_result_type : Entries
input_residue_action_result_type =
    entry "id" false string_type
      (entry "ok" false boolean_type (entry "error" false (nullable (string_type)) no_entries))

abbrev pub pane_choice_send_type : Entries
pane_choice_send_type =
    entry "id" false string_type
      (entry "session" false string_type (entry "key" false string_type no_entries))

abbrev pub pane_choice_send_result_type : Entries
pane_choice_send_result_type =
    entry "id" false string_type
      (entry "ok" false boolean_type (entry "error" false (nullable (string_type)) no_entries))

abbrev pub pane_key_send_type : Entries
pane_key_send_type =
    entry "id" false string_type
      (entry "session" false string_type (entry "key" false string_type no_entries))

abbrev pub pane_key_send_result_type : Entries
pane_key_send_result_type =
    entry "id" false string_type
      (entry "ok" false boolean_type (entry "error" false (nullable (string_type)) no_entries))

abbrev pub chat_prompt_cancelled_type : Entries
chat_prompt_cancelled_type =
    entry "session" false string_type (entry "text" false string_type no_entries)

abbrev pub login_code_send_type : Entries
login_code_send_type =
    entry "id" false string_type
      (entry "session" false string_type (entry "code" false string_type no_entries))

abbrev pub login_code_send_result_type : Entries
login_code_send_result_type =
    entry "id" false string_type
      (entry "ok" false boolean_type (entry "error" false (nullable (string_type)) no_entries))

abbrev pub session_title_set_result_type : Entries
session_title_set_result_type =
    entry "id" false string_type
      (entry "ok" false boolean_type (entry "error" false (nullable (string_type)) no_entries))

abbrev pub codex_thread_title_set_result_type : Entries
codex_thread_title_set_result_type =
    entry "id" false string_type
      (entry "ok" false boolean_type (entry "error" false (nullable (string_type)) no_entries))

abbrev pub conversation_delete_result_type : Entries
conversation_delete_result_type =
    entry "id" false string_type
      (entry "ok" false boolean_type (entry "error" false (nullable (string_type)) no_entries))

abbrev pub question_prompt_type : Entries
question_prompt_type =
    entry "id" false string_type (
      entry "questions" false (array_type (object_type question_prompt_question_object)) no_entries)

abbrev pub question_answer_type : Entries
question_answer_type = entry "id" false string_type (
    entry "session" false string_type
      (entry "answers" false (array_type (object_type question_answer_object)) no_entries))

abbrev pub mode_get_type : Entries
mode_get_type = entry "id" false string_type (entry "session" false string_type no_entries)

abbrev pub mode_set_type : Entries
mode_set_type =
    entry "id" false string_type
      (entry "session" false string_type (entry "mode" false string_type no_entries))

abbrev pub mode_set_response_type : Entries
mode_set_response_type = entry "id" false string_type (entry "mode" false string_type no_entries)
