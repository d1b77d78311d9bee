-- ===== src/Wire/Types/Git.antt =====
-- The messages of src/protocol/messages.ts: the properties but for `type` and `v`.
use tailii_host.Prelude.{true, false}
use tailii_host.Wire.Shapes.{
  string_type, number_type, boolean_type, nullable, array_type, object_type, Entries, no_entries,
  entry,
}
use tailii_host.Wire.Types.Infos.{
  git_status_file_object, git_commit_info_object, git_branch_info_object,
}

abbrev pub git_status_request_type : Entries
git_status_request_type = entry "id" false string_type (entry "path" false string_type no_entries)

abbrev pub git_status_response_type : Entries
git_status_response_type = entry "id" false string_type (
    entry "isRepo" false boolean_type (
      entry "branch" false string_type (
        entry "upstream" false (nullable (string_type)) (
          entry "ahead" false number_type (
            entry "behind" false number_type (
              entry "files" false (array_type (object_type git_status_file_object)) (
                entry "repoRoot" true string_type (
                  entry "diffAdditions" true number_type
                    (entry "diffDeletions" true number_type no_entries)))))))))

abbrev pub git_diff_request_type : Entries
git_diff_request_type = entry "id" false string_type (
    entry "path" false string_type (
      entry "file" true string_type (
        entry "staged" true boolean_type
          (entry "commit" true (nullable (string_type)) no_entries))))

abbrev pub git_diff_response_type : Entries
git_diff_response_type = entry "id" false string_type (
    entry "isRepo" false boolean_type
      (entry "diff" false string_type (entry "truncated" false boolean_type no_entries)))

abbrev pub git_log_request_type : Entries
git_log_request_type =
    entry "id" false string_type
      (entry "path" false string_type (entry "limit" true number_type no_entries))

abbrev pub git_log_response_type : Entries
git_log_response_type = entry "id" false string_type (
    entry "isRepo" false boolean_type
      (entry "commits" false (array_type (object_type git_commit_info_object)) no_entries))

abbrev pub git_branch_list_request_type : Entries
git_branch_list_request_type =
    entry "id" false string_type (entry "path" false string_type no_entries)

abbrev pub git_branch_list_response_type : Entries
git_branch_list_response_type = entry "id" false string_type (
    entry "isRepo" false boolean_type
      (entry "branches" false (array_type (object_type git_branch_info_object)) no_entries))

abbrev pub git_checkout_request_type : Entries
git_checkout_request_type = entry "id" false string_type (
    entry "path" false string_type
      (entry "branch" false string_type (entry "create" false boolean_type no_entries)))

abbrev pub git_checkout_response_type : Entries
git_checkout_response_type = entry "id" false string_type (
    entry "ok" false boolean_type
      (entry "branch" false string_type (entry "error" false (nullable (string_type)) no_entries)))

abbrev pub git_discard_request_type : Entries
git_discard_request_type =
    entry "id" false string_type
      (entry "path" false string_type (entry "files" false (array_type (string_type)) no_entries))

abbrev pub git_discard_response_type : Entries
git_discard_response_type =
    entry "id" false string_type
      (entry "ok" false boolean_type (entry "error" false (nullable (string_type)) no_entries))

abbrev pub git_init_request_type : Entries
git_init_request_type = entry "id" false string_type (entry "path" false string_type no_entries)

abbrev pub git_init_response_type : Entries
git_init_response_type =
    entry "id" false string_type
      (entry "ok" false boolean_type (entry "error" false (nullable (string_type)) no_entries))

abbrev pub git_worktree_create_request_type : Entries
git_worktree_create_request_type =
    entry "id" false string_type
      (entry "path" false string_type (entry "baseBranch" false string_type no_entries))

abbrev pub git_worktree_create_response_type : Entries
git_worktree_create_response_type = entry "id" false string_type (
    entry "ok" false boolean_type (
      entry "branch" false string_type (
        entry "worktreePath" false string_type
          (entry "error" false (nullable (string_type)) no_entries))))

abbrev pub git_worktree_remove_request_type : Entries
git_worktree_remove_request_type =
    entry "id" false string_type
      (entry "path" false string_type (entry "force" false boolean_type no_entries))

abbrev pub git_worktree_remove_response_type : Entries
git_worktree_remove_response_type =
    entry "id" false string_type
      (entry "ok" false boolean_type (entry "error" false (nullable (string_type)) no_entries))
