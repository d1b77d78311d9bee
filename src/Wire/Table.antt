-- ===== src/Wire/Table.antt =====
-- The `switch (type)` of src/protocol/decode.ts: the object literal of each type. `nested` is what stands
-- under one property of the message and is read from the message's own properties, if there is such.
use tailii_host.Prelude.{String, List, [], ◌∷◌, Option, none, some}
use tailii_host.Wire.Parts.{Part}
use tailii_host.Wire.Messages.Sessions.{
  session_list_request, session_list_response, session_start, session_prewarm,
  session_prewarm_cancel, session_reattach, session_kill, claude_session_list_response,
  session_search_request, session_search_response, session_processing_state, session_preview_watch,
  session_liveness_event, session_title_set,
}
use tailii_host.Wire.Messages.Models.{
  codex_model_list_request, codex_model_list_response, codex_model_set_request,
  codex_model_set_response, claude_model_list_request, claude_model_list_response,
}
use tailii_host.Wire.Messages.Approvals.{
  channel_hello, host_update_request, host_update_response, approval_request, approval_decision,
  remote_pending, remote_pending_cleared, remote_pending_snapshot, error, backend_get_request,
  backend_get_response, backend_set_request, backend_set_response, background_sync_hints,
  background_command_stop_request, background_command_stop_response,
}
use tailii_host.Wire.Messages.Codex.{
  official_app_status_request, official_app_status_response, official_app_action_request,
  official_app_action_response, codex_turn_start, codex_turn_start_result, codex_turn_interrupt,
  codex_goal_request, codex_goal_response, codex_goal_state, codex_thread_title_set,
}
use tailii_host.Wire.Messages.Chat.{
  chat_send, chat_send_result, pending_message_delete, pending_message_delete_result,
  chat_receipt_query, chat_receipt_query_result, chat_send_now, chat_send_now_result,
  chat_stream_alias, chat_output, session_chat_stream_alias, session_chat_output,
  conversation_delete, history_page_request, history_page_response,
}
use tailii_host.Wire.Messages.Activity.{
  subagent_transcript_request, subagent_transcript_response, tool_activity_info, tool_activity,
  session_tool_activity, subagent_node_info, subagent_node,
}
use tailii_host.Wire.Messages.Questions.{
  question_prompt, question_answer, pane_preview, input_suggestion, pane_choice_send,
  input_residue_action, login_code_send, pane_choice_send_result, mode_get, mode_set,
  mode_set_response,
}
use tailii_host.Wire.Messages.Usage.{usage_request, usage_response, account_usage_response}
use tailii_host.Wire.Messages.Files.{
  image_available, image_fetch_request, file_fetch_cancel, image_fetch_response, slash_list_request,
  slash_list_response, peer_session_list_request, peer_session_list_response, dir_list_request,
  dir_list_response, browse_request, browse_response, dir_create_request, dir_create_response,
  file_list_request, file_list_response, file_search_request, file_search_response,
  file_read_response, file_fetch_response,
}
use tailii_host.Wire.Messages.Git.{
  git_status_request, git_worktree_create_request, git_worktree_remove_request, git_status_response,
  git_diff_request, git_diff_response, git_log_request, git_log_response, git_branch_list_response,
  git_checkout_request, git_checkout_response, git_discard_request, git_discard_response,
  git_worktree_create_response,
}
use tailii_host.Wire.Messages.Servers.{
  preview_open, preview_ready, preview_error, preview_close, serve_list_request,
  serve_list_response, serve_stop_request, serve_stop_response,
}

pub record Case : Type 0 where
  pub own : List Part
  pub nested : Option (String × List Part)

abbrev plain : List Part → Case
plain parts = record { own = parts; nested = none }

abbrev nesting : List Part → String → List Part → Case
nesting parts name inner = record { own = parts; nested = some (name, inner) }

abbrev pub cases : List (String × Case)
cases =
    ("channel_hello", plain channel_hello)
    ∷ ("host_update_request", plain host_update_request)
    ∷ ("host_update_response", plain host_update_response)
    ∷ ("approval_request", plain approval_request)
    ∷ ("approval_decision", plain approval_decision)
    ∷ ("remote_pending", plain remote_pending)
    ∷ ("remote_pending_cleared", plain remote_pending_cleared)
    ∷ ("remote_pending_snapshot", plain remote_pending_snapshot)
    ∷ ("session_list_request", plain session_list_request)
    ∷ ("session_list_response", plain session_list_response)
    ∷ ("session_start", plain session_start)
    ∷ ("session_prewarm", plain session_prewarm)
    ∷ ("session_prewarm_cancel", plain session_prewarm_cancel)
    ∷ ("session_reattach", plain session_reattach)
    ∷ ("session_kill", plain session_kill)
    ∷ ("session_idle_hint", plain session_kill)
    ∷ ("codex_model_list_request", plain codex_model_list_request)
    ∷ ("codex_model_list_response", plain codex_model_list_response)
    ∷ ("codex_model_set_request", plain codex_model_set_request)
    ∷ ("codex_model_set_response", plain codex_model_set_response)
    ∷ ("claude_model_list_request", plain claude_model_list_request)
    ∷ ("claude_model_list_response", plain claude_model_list_response)
    ∷ ("official_app_status_request", plain official_app_status_request)
    ∷ ("official_app_status_response", plain official_app_status_response)
    ∷ ("official_app_action_request", plain official_app_action_request)
    ∷ ("official_app_action_response", plain official_app_action_response)
    ∷ ("codex_turn_start", plain codex_turn_start)
    ∷ ("codex_turn_start_result", plain codex_turn_start_result)
    ∷ ("codex_turn_interrupt", plain codex_turn_interrupt)
    ∷ ("codex_goal_request", plain codex_goal_request)
    ∷ ("codex_goal_response", plain codex_goal_response)
    ∷ ("codex_goal_state", plain codex_goal_state)
    ∷ ("session_processing_state", plain session_processing_state)
    ∷ ("chat_send", plain chat_send)
    ∷ ("chat_send_result", plain chat_send_result)
    ∷ ("pending_message_delete", plain pending_message_delete)
    ∷ ("pending_message_delete_result", plain pending_message_delete_result)
    ∷ ("chat_receipt_query", plain chat_receipt_query)
    ∷ ("chat_receipt_query_result", plain chat_receipt_query_result)
    ∷ ("chat_send_now", plain chat_send_now)
    ∷ ("chat_send_now_result", plain chat_send_now_result)
    ∷ ("error", plain error)
    ∷ ("image_available", plain image_available)
    ∷ ("usage_request", plain usage_request)
    ∷ ("image_fetch_request", plain image_fetch_request)
    ∷ ("file_fetch_cancel", plain file_fetch_cancel)
    ∷ ("account_usage_request", plain file_fetch_cancel)
    ∷ ("question_dismiss", plain file_fetch_cancel)
    ∷ ("claude_session_list_request", plain file_fetch_cancel)
    ∷ ("image_fetch_response", plain image_fetch_response)
    ∷ ("subagent_transcript_request", plain subagent_transcript_request)
    ∷ ("history_page_request", plain history_page_request)
    ∷ ("history_page_response", plain history_page_response)
    ∷ ("subagent_transcript_response", plain subagent_transcript_response)
    ∷ ("chat_stream_alias", plain chat_stream_alias)
    ∷ ("chat_output", plain chat_output)
    ∷ ("session_chat_stream_alias", plain session_chat_stream_alias)
    ∷ ("session_chat_output", plain session_chat_output)
    ∷ ("tool_activity", nesting tool_activity "activity" tool_activity_info)
    ∷ ("session_tool_activity", nesting session_tool_activity "activity" tool_activity_info)
    ∷ ("subagent_node", nesting subagent_node "node" subagent_node_info)
    ∷ ("pane_preview", plain pane_preview)
    ∷ ("input_suggestion", plain input_suggestion)
    ∷ ("input_residue", plain input_suggestion)
    ∷ ("chat_prompt_cancelled", plain input_suggestion)
    ∷ ("session_preview_watch", plain session_preview_watch)
    ∷ ("session_liveness_event", plain session_liveness_event)
    ∷ ("pane_choice_send", plain pane_choice_send)
    ∷ ("pane_key_send", plain pane_choice_send)
    ∷ ("input_residue_action", plain input_residue_action)
    ∷ ("login_code_send", plain login_code_send)
    ∷ ("pane_choice_send_result", plain pane_choice_send_result)
    ∷ ("pane_key_send_result", plain pane_choice_send_result)
    ∷ ("input_residue_action_result", plain pane_choice_send_result)
    ∷ ("login_code_send_result", plain pane_choice_send_result)
    ∷ ("session_title_set_result", plain pane_choice_send_result)
    ∷ ("codex_thread_title_set_result", plain pane_choice_send_result)
    ∷ ("conversation_delete_result", plain pane_choice_send_result)
    ∷ ("session_title_set", plain session_title_set)
    ∷ ("codex_thread_title_set", plain codex_thread_title_set)
    ∷ ("conversation_delete", plain conversation_delete)
    ∷ ("question_prompt", plain question_prompt)
    ∷ ("question_answer", plain question_answer)
    ∷ ("usage_response", plain usage_response)
    ∷ ("account_usage_response", plain account_usage_response)
    ∷ ("mode_get", plain mode_get)
    ∷ ("mode_set", plain mode_set)
    ∷ ("mode_set_response", plain mode_set_response)
    ∷ ("slash_list_request", plain slash_list_request)
    ∷ ("peer_session_list_request", plain peer_session_list_request)
    ∷ ("peer_session_list_response", plain peer_session_list_response)
    ∷ ("slash_list_response", plain slash_list_response)
    ∷ ("dir_list_request", plain dir_list_request)
    ∷ ("dir_list_response", plain dir_list_response)
    ∷ ("browse_request", plain browse_request)
    ∷ ("browse_response", plain browse_response)
    ∷ ("file_list_request", plain file_list_request)
    ∷ ("file_read_request", plain file_list_request)
    ∷ ("file_fetch_request", plain file_list_request)
    ∷ ("git_status_request", plain git_status_request)
    ∷ ("git_branch_list_request", plain git_status_request)
    ∷ ("git_init_request", plain git_status_request)
    ∷ ("git_worktree_create_request", plain git_worktree_create_request)
    ∷ ("git_worktree_remove_request", plain git_worktree_remove_request)
    ∷ ("file_list_response", plain file_list_response)
    ∷ ("file_search_request", plain file_search_request)
    ∷ ("file_search_response", plain file_search_response)
    ∷ ("file_read_response", plain file_read_response)
    ∷ ("file_fetch_response", plain file_fetch_response)
    ∷ ("git_status_response", plain git_status_response)
    ∷ ("git_diff_request", plain git_diff_request)
    ∷ ("git_diff_response", plain git_diff_response)
    ∷ ("git_log_request", plain git_log_request)
    ∷ ("git_log_response", plain git_log_response)
    ∷ ("git_branch_list_response", plain git_branch_list_response)
    ∷ ("git_checkout_request", plain git_checkout_request)
    ∷ ("git_checkout_response", plain git_checkout_response)
    ∷ ("git_discard_request", plain git_discard_request)
    ∷ ("git_discard_response", plain git_discard_response)
    ∷ ("git_init_response", plain git_discard_response)
    ∷ ("git_worktree_remove_response", plain git_discard_response)
    ∷ ("git_worktree_create_response", plain git_worktree_create_response)
    ∷ ("claude_session_list_response", plain claude_session_list_response)
    ∷ ("dir_create_request", plain dir_create_request)
    ∷ ("dir_create_response", plain dir_create_response)
    ∷ ("session_search_request", plain session_search_request)
    ∷ ("session_search_response", plain session_search_response)
    ∷ ("preview_open", plain preview_open)
    ∷ ("preview_ready", plain preview_ready)
    ∷ ("preview_error", plain preview_error)
    ∷ ("preview_close", plain preview_close)
    ∷ ("serve_list_request", plain serve_list_request)
    ∷ ("serve_list_response", plain serve_list_response)
    ∷ ("serve_stop_request", plain serve_stop_request)
    ∷ ("serve_stop_response", plain serve_stop_response)
    ∷ ("background_sync_hints", plain background_sync_hints)
    ∷ ("background_command_stop_request", plain background_command_stop_request)
    ∷ ("background_command_stop_response", plain background_command_stop_response)
    ∷ ("backend_get_request", plain backend_get_request)
    ∷ ("backend_get_response", plain backend_get_response)
    ∷ ("backend_set_request", plain backend_set_request)
    ∷ ("backend_set_response", plain backend_set_response)
    ∷ []
