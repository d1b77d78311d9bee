-- ===== src/Wire/Types/Union.antt =====
-- The union `ControlMessage` of src/protocol/messages.ts.
use tailii_host.Prelude.{String, List, [], ◌∷◌}
use tailii_host.Wire.Shapes.{Entries}
use tailii_host.Wire.Types.Approvals.{
  channel_hello_type, host_update_request_type, host_update_response_type, approval_request_type,
  approval_decision_type, remote_pending_type, remote_pending_cleared_type,
  remote_pending_snapshot_type, error_type, background_sync_hints_type,
  background_command_stop_request_type, background_command_stop_response_type,
  backend_get_request_type, backend_get_response_type, backend_set_request_type,
  backend_set_response_type,
}
use tailii_host.Wire.Types.Sessions.{
  session_list_request_type, session_list_response_type, session_start_type, session_reattach_type,
  session_kill_type, session_prewarm_type, session_prewarm_cancel_type, session_idle_hint_type,
  session_processing_state_type, session_preview_watch_type, session_liveness_event_type,
  session_title_set_type, claude_session_list_response_type, session_search_request_type,
  session_search_response_type,
}
use tailii_host.Wire.Types.Codex.{
  codex_model_list_request_type, codex_model_list_response_type, codex_model_set_request_type,
  codex_model_set_response_type, claude_model_list_request_type, claude_model_list_response_type,
  official_app_status_request_type, official_app_status_response_type,
  official_app_action_request_type, official_app_action_response_type, codex_turn_start_type,
  codex_turn_start_result_type, codex_turn_interrupt_type, codex_goal_request_type,
  codex_goal_response_type, codex_goal_state_type, codex_thread_title_set_type,
}
use tailii_host.Wire.Types.Chat.{
  chat_send_type, chat_send_result_type, pending_message_delete_type,
  pending_message_delete_result_type, chat_receipt_query_type, chat_receipt_query_result_type,
  chat_send_now_type, chat_send_now_result_type, history_page_request_type,
  history_page_response_type, chat_stream_alias_type, chat_output_type,
  session_chat_stream_alias_type, session_chat_output_type, conversation_delete_type,
}
use tailii_host.Wire.Types.Files.{
  image_available_type, image_fetch_request_type, image_fetch_response_type, question_dismiss_type,
  account_usage_request_type, slash_list_request_type, slash_list_response_type,
  peer_session_list_request_type, peer_session_list_response_type, dir_list_request_type,
  dir_list_response_type, browse_request_type, browse_response_type, file_list_request_type,
  file_list_response_type, file_read_request_type, file_read_response_type,
  file_search_request_type, file_search_response_type, file_fetch_request_type,
  file_fetch_cancel_type, file_fetch_response_type, claude_session_list_request_type,
  dir_create_request_type, dir_create_response_type,
}
use tailii_host.Wire.Types.Activity.{
  subagent_transcript_request_type, subagent_transcript_response_type, tool_activity_type,
  session_tool_activity_type, subagent_node_type,
}
use tailii_host.Wire.Types.Questions.{
  pane_preview_type, input_suggestion_type, input_residue_type, input_residue_action_type,
  input_residue_action_result_type, pane_choice_send_type, pane_choice_send_result_type,
  pane_key_send_type, pane_key_send_result_type, chat_prompt_cancelled_type, login_code_send_type,
  login_code_send_result_type, session_title_set_result_type, codex_thread_title_set_result_type,
  conversation_delete_result_type, question_prompt_type, question_answer_type, mode_get_type,
  mode_set_type, mode_set_response_type,
}
use tailii_host.Wire.Types.Usage.{
  usage_request_type, usage_response_type, account_usage_response_type,
}
use tailii_host.Wire.Types.Git.{
  git_status_request_type, git_status_response_type, git_diff_request_type, git_diff_response_type,
  git_log_request_type, git_log_response_type, git_branch_list_request_type,
  git_branch_list_response_type, git_checkout_request_type, git_checkout_response_type,
  git_discard_request_type, git_discard_response_type, git_init_request_type,
  git_init_response_type, git_worktree_create_request_type, git_worktree_create_response_type,
  git_worktree_remove_request_type, git_worktree_remove_response_type,
}
use tailii_host.Wire.Types.Servers.{
  preview_open_type, preview_ready_type, preview_error_type, preview_close_type,
  serve_list_request_type, serve_list_response_type, serve_stop_request_type,
  serve_stop_response_type,
}

abbrev pub control_message : List (String × Entries)
control_message =
    ("channel_hello", channel_hello_type)
    ∷ ("host_update_request", host_update_request_type)
    ∷ ("host_update_response", host_update_response_type)
    ∷ ("approval_request", approval_request_type)
    ∷ ("approval_decision", approval_decision_type)
    ∷ ("remote_pending", remote_pending_type)
    ∷ ("remote_pending_cleared", remote_pending_cleared_type)
    ∷ ("remote_pending_snapshot", remote_pending_snapshot_type)
    ∷ ("session_list_request", session_list_request_type)
    ∷ ("session_list_response", session_list_response_type)
    ∷ ("session_start", session_start_type)
    ∷ ("session_reattach", session_reattach_type)
    ∷ ("session_kill", session_kill_type)
    ∷ ("session_prewarm", session_prewarm_type)
    ∷ ("session_prewarm_cancel", session_prewarm_cancel_type)
    ∷ ("session_idle_hint", session_idle_hint_type)
    ∷ ("codex_model_list_request", codex_model_list_request_type)
    ∷ ("codex_model_list_response", codex_model_list_response_type)
    ∷ ("codex_model_set_request", codex_model_set_request_type)
    ∷ ("codex_model_set_response", codex_model_set_response_type)
    ∷ ("claude_model_list_request", claude_model_list_request_type)
    ∷ ("claude_model_list_response", claude_model_list_response_type)
    ∷ ("official_app_status_request", official_app_status_request_type)
    ∷ ("official_app_status_response", official_app_status_response_type)
    ∷ ("official_app_action_request", official_app_action_request_type)
    ∷ ("official_app_action_response", official_app_action_response_type)
    ∷ ("codex_turn_start", codex_turn_start_type)
    ∷ ("codex_turn_start_result", codex_turn_start_result_type)
    ∷ ("codex_turn_interrupt", codex_turn_interrupt_type)
    ∷ ("codex_goal_request", codex_goal_request_type)
    ∷ ("codex_goal_response", codex_goal_response_type)
    ∷ ("codex_goal_state", codex_goal_state_type)
    ∷ ("session_processing_state", session_processing_state_type)
    ∷ ("chat_send", chat_send_type)
    ∷ ("chat_send_result", chat_send_result_type)
    ∷ ("pending_message_delete", pending_message_delete_type)
    ∷ ("pending_message_delete_result", pending_message_delete_result_type)
    ∷ ("chat_receipt_query", chat_receipt_query_type)
    ∷ ("chat_receipt_query_result", chat_receipt_query_result_type)
    ∷ ("chat_send_now", chat_send_now_type)
    ∷ ("chat_send_now_result", chat_send_now_result_type)
    ∷ ("error", error_type)
    ∷ ("image_available", image_available_type)
    ∷ ("image_fetch_request", image_fetch_request_type)
    ∷ ("image_fetch_response", image_fetch_response_type)
    ∷ ("subagent_transcript_request", subagent_transcript_request_type)
    ∷ ("history_page_request", history_page_request_type)
    ∷ ("history_page_response", history_page_response_type)
    ∷ ("subagent_transcript_response", subagent_transcript_response_type)
    ∷ ("chat_stream_alias", chat_stream_alias_type)
    ∷ ("chat_output", chat_output_type)
    ∷ ("tool_activity", tool_activity_type)
    ∷ ("session_chat_stream_alias", session_chat_stream_alias_type)
    ∷ ("session_chat_output", session_chat_output_type)
    ∷ ("session_tool_activity", session_tool_activity_type)
    ∷ ("subagent_node", subagent_node_type)
    ∷ ("pane_preview", pane_preview_type)
    ∷ ("input_suggestion", input_suggestion_type)
    ∷ ("input_residue", input_residue_type)
    ∷ ("input_residue_action", input_residue_action_type)
    ∷ ("input_residue_action_result", input_residue_action_result_type)
    ∷ ("session_preview_watch", session_preview_watch_type)
    ∷ ("session_liveness_event", session_liveness_event_type)
    ∷ ("pane_choice_send", pane_choice_send_type)
    ∷ ("pane_choice_send_result", pane_choice_send_result_type)
    ∷ ("pane_key_send", pane_key_send_type)
    ∷ ("pane_key_send_result", pane_key_send_result_type)
    ∷ ("chat_prompt_cancelled", chat_prompt_cancelled_type)
    ∷ ("login_code_send", login_code_send_type)
    ∷ ("login_code_send_result", login_code_send_result_type)
    ∷ ("session_title_set", session_title_set_type)
    ∷ ("session_title_set_result", session_title_set_result_type)
    ∷ ("codex_thread_title_set", codex_thread_title_set_type)
    ∷ ("codex_thread_title_set_result", codex_thread_title_set_result_type)
    ∷ ("conversation_delete", conversation_delete_type)
    ∷ ("conversation_delete_result", conversation_delete_result_type)
    ∷ ("question_prompt", question_prompt_type)
    ∷ ("question_answer", question_answer_type)
    ∷ ("question_dismiss", question_dismiss_type)
    ∷ ("usage_request", usage_request_type)
    ∷ ("usage_response", usage_response_type)
    ∷ ("account_usage_request", account_usage_request_type)
    ∷ ("account_usage_response", account_usage_response_type)
    ∷ ("mode_get", mode_get_type)
    ∷ ("mode_set", mode_set_type)
    ∷ ("mode_set_response", mode_set_response_type)
    ∷ ("slash_list_request", slash_list_request_type)
    ∷ ("slash_list_response", slash_list_response_type)
    ∷ ("peer_session_list_request", peer_session_list_request_type)
    ∷ ("peer_session_list_response", peer_session_list_response_type)
    ∷ ("dir_list_request", dir_list_request_type)
    ∷ ("dir_list_response", dir_list_response_type)
    ∷ ("browse_request", browse_request_type)
    ∷ ("browse_response", browse_response_type)
    ∷ ("file_list_request", file_list_request_type)
    ∷ ("file_list_response", file_list_response_type)
    ∷ ("file_read_request", file_read_request_type)
    ∷ ("file_read_response", file_read_response_type)
    ∷ ("file_search_request", file_search_request_type)
    ∷ ("file_search_response", file_search_response_type)
    ∷ ("file_fetch_request", file_fetch_request_type)
    ∷ ("file_fetch_cancel", file_fetch_cancel_type)
    ∷ ("file_fetch_response", file_fetch_response_type)
    ∷ ("git_status_request", git_status_request_type)
    ∷ ("git_status_response", git_status_response_type)
    ∷ ("git_diff_request", git_diff_request_type)
    ∷ ("git_diff_response", git_diff_response_type)
    ∷ ("git_log_request", git_log_request_type)
    ∷ ("git_log_response", git_log_response_type)
    ∷ ("git_branch_list_request", git_branch_list_request_type)
    ∷ ("git_branch_list_response", git_branch_list_response_type)
    ∷ ("git_checkout_request", git_checkout_request_type)
    ∷ ("git_checkout_response", git_checkout_response_type)
    ∷ ("git_discard_request", git_discard_request_type)
    ∷ ("git_discard_response", git_discard_response_type)
    ∷ ("git_init_request", git_init_request_type)
    ∷ ("git_init_response", git_init_response_type)
    ∷ ("git_worktree_create_request", git_worktree_create_request_type)
    ∷ ("git_worktree_create_response", git_worktree_create_response_type)
    ∷ ("git_worktree_remove_request", git_worktree_remove_request_type)
    ∷ ("git_worktree_remove_response", git_worktree_remove_response_type)
    ∷ ("claude_session_list_request", claude_session_list_request_type)
    ∷ ("claude_session_list_response", claude_session_list_response_type)
    ∷ ("dir_create_request", dir_create_request_type)
    ∷ ("dir_create_response", dir_create_response_type)
    ∷ ("session_search_request", session_search_request_type)
    ∷ ("session_search_response", session_search_response_type)
    ∷ ("preview_open", preview_open_type)
    ∷ ("preview_ready", preview_ready_type)
    ∷ ("preview_error", preview_error_type)
    ∷ ("preview_close", preview_close_type)
    ∷ ("serve_list_request", serve_list_request_type)
    ∷ ("serve_list_response", serve_list_response_type)
    ∷ ("serve_stop_request", serve_stop_request_type)
    ∷ ("serve_stop_response", serve_stop_response_type)
    ∷ ("background_sync_hints", background_sync_hints_type)
    ∷ ("background_command_stop_request", background_command_stop_request_type)
    ∷ ("background_command_stop_response", background_command_stop_response_type)
    ∷ ("backend_get_request", backend_get_request_type)
    ∷ ("backend_get_response", backend_get_response_type)
    ∷ ("backend_set_request", backend_set_request_type)
    ∷ ("backend_set_response", backend_set_response_type)
    ∷ []
