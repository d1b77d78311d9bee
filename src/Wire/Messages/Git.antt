-- ===== src/Wire/Messages/Git.antt =====
-- The messages on git.
use tailii_host.Prelude.{List, [], ◌∷◌, refl}
use tailii_host.Wire.Readers.{
  require_string, optional_string, optional_nullable_string, require_number, optional_number,
  require_boolean, optional_boolean, string_or_else_null,
}
use tailii_host.Wire.Arrays.{require_array, require_string_array}
use tailii_host.Wire.Parts.{Part, at}
use tailii_host.Wire.Objects.{object}

-- `git_status_request`, `git_branch_list_request`, `git_init_request`.
abbrev pub git_status_request : List Part
git_status_request = at "id" require_string ∷ at "path" require_string ∷ []

abbrev pub git_worktree_create_request : List Part
git_worktree_create_request =
    at "id" require_string ∷ at "path" require_string ∷ at "baseBranch" require_string ∷ []

abbrev pub git_worktree_remove_request : List Part
git_worktree_remove_request =
    at "id" require_string ∷ at "path" require_string ∷ at "force" require_boolean ∷ []

abbrev pub git_status_file : List Part
git_status_file =
    at "path" require_string
    ∷ at "indexStatus" require_string
    ∷ at "worktreeStatus" require_string
    ∷ at "renamedFrom" string_or_else_null
    ∷ []

abbrev pub git_status_response : List Part
git_status_response =
    at "id" require_string
    ∷ at "isRepo" require_boolean
    ∷ at "branch" require_string
    ∷ at "upstream" string_or_else_null
    ∷ at "ahead" require_number
    ∷ at "behind" require_number
    ∷ at "files" (require_array (object git_status_file refl))
    ∷ at "repoRoot" optional_string
    ∷ at "diffAdditions" optional_number
    ∷ at "diffDeletions" optional_number
    ∷ []

abbrev pub git_diff_request : List Part
git_diff_request =
    at "id" require_string
    ∷ at "path" require_string
    ∷ at "file" optional_string
    ∷ at "staged" optional_boolean
    ∷ at "commit" optional_nullable_string
    ∷ []

abbrev pub git_diff_response : List Part
git_diff_response =
    at "id" require_string
    ∷ at "isRepo" require_boolean
    ∷ at "diff" require_string
    ∷ at "truncated" require_boolean
    ∷ []

abbrev pub git_log_request : List Part
git_log_request =
    at "id" require_string ∷ at "path" require_string ∷ at "limit" optional_number ∷ []

abbrev pub git_commit_info : List Part
git_commit_info =
    at "hash" require_string
    ∷ at "shortHash" require_string
    ∷ at "subject" require_string
    ∷ at "authorName" require_string
    ∷ at "dateMs" require_number
    ∷ []

abbrev pub git_log_response : List Part
git_log_response =
    at "id" require_string
    ∷ at "isRepo" require_boolean
    ∷ at "commits" (require_array (object git_commit_info refl))
    ∷ []

abbrev pub git_branch_info : List Part
git_branch_info =
    at "name" require_string
    ∷ at "subject" require_string
    ∷ at "dateMs" require_number
    ∷ at "isCurrent" require_boolean
    ∷ at "ahead" require_number
    ∷ at "behind" require_number
    ∷ []

abbrev pub git_branch_list_response : List Part
git_branch_list_response =
    at "id" require_string
    ∷ at "isRepo" require_boolean
    ∷ at "branches" (require_array (object git_branch_info refl))
    ∷ []

abbrev pub git_checkout_request : List Part
git_checkout_request =
    at "id" require_string
    ∷ at "path" require_string
    ∷ at "branch" require_string
    ∷ at "create" require_boolean
    ∷ []

abbrev pub git_checkout_response : List Part
git_checkout_response =
    at "id" require_string
    ∷ at "ok" require_boolean
    ∷ at "branch" require_string
    ∷ at "error" string_or_else_null
    ∷ []

abbrev pub git_discard_request : List Part
git_discard_request =
    at "id" require_string ∷ at "path" require_string ∷ at "files" require_string_array ∷ []

-- `git_discard_response`, `git_init_response`, `git_worktree_remove_response`.
abbrev pub git_discard_response : List Part
git_discard_response =
    at "id" require_string ∷ at "ok" require_boolean ∷ at "error" string_or_else_null ∷ []

abbrev pub git_worktree_create_response : List Part
git_worktree_create_response =
    at "id" require_string
    ∷ at "ok" require_boolean
    ∷ at "branch" require_string
    ∷ at "worktreePath" require_string
    ∷ at "error" string_or_else_null
    ∷ []
