-- ===== src/Wire/Messages/Codex.antt =====
-- The messages of Codex turns and goals, and of the official apps.
use tailii_host.Prelude.{List, [], ◌∷◌, refl}
use tailii_host.Wire.Readers.{
  unless_undefined, require_string, optional_string, require_number, optional_number,
  require_boolean, optional_boolean, require_one_of, optional_one_of,
}
use tailii_host.Wire.Parts.{Part, at}
use tailii_host.Wire.Objects.{object}
use tailii_host.Wire.Choices.{official_app_provider}

abbrev pub official_app_status_request : List Part
official_app_status_request =
    at "id" require_string ∷ at "session" require_string ∷ at "provider" official_app_provider ∷ []

abbrev pub official_app_status_response : List Part
official_app_status_response =
    at "id" require_string
    ∷ at "provider" official_app_provider
    ∷ at "version" optional_string
    ∷ at "state" (require_one_of ("active" ∷ "inactive" ∷ "unavailable" ∷ []))
    ∷ at "canOpen" require_boolean
    ∷ at "canStart" require_boolean
    ∷ at "launchUrl" optional_string
    ∷ at "unavailableReason" optional_string
    ∷ []

abbrev pub official_app_action_request : List Part
official_app_action_request =
    at "id" require_string
    ∷ at "session" require_string
    ∷ at "provider" official_app_provider
    ∷ at "action" (require_one_of ("open" ∷ "repair" ∷ "stop" ∷ []))
    ∷ at "automaticEnable" require_boolean
    ∷ at "paired" require_boolean
    ∷ []

abbrev pub official_app_action_response : List Part
official_app_action_response =
    at "id" require_string
    ∷ at "provider" official_app_provider
    ∷ at "outcome" (require_one_of ("open" ∷ "pair" ∷ "stopped" ∷ "unavailable" ∷ []))
    ∷ at "launchUrl" optional_string
    ∷ at "manualPairingCode" optional_string
    ∷ at "expiresAt" optional_number
    ∷ at "unavailableReason" optional_string
    ∷ []

abbrev pub codex_turn_start : List Part
codex_turn_start =
    at "id" require_string
    ∷ at "session" require_string
    ∷ at "text" require_string
    ∷ at "clientUserMessageId" optional_string
    ∷ at "effort" optional_string
    ∷ at "approvalPolicy" (optional_one_of ("untrusted" ∷ "on-request" ∷ "never" ∷ []))
    ∷ at "sandbox" (optional_one_of ("read-only" ∷ "workspace-write" ∷ "danger-full-access" ∷ []))
    ∷ at "explicitRetry" optional_boolean
    ∷ at "collaborationMode" (optional_one_of ("plan" ∷ "default" ∷ []))
    ∷ []

abbrev pub codex_turn_start_result : List Part
codex_turn_start_result =
    at "id" require_string
    ∷ at "status" (require_one_of ("started" ∷ "duplicate" ∷ "failed" ∷ []))
    ∷ at "error" optional_string
    ∷ []

abbrev pub codex_turn_interrupt : List Part
codex_turn_interrupt = at "id" require_string ∷ at "session" require_string ∷ []

abbrev pub codex_goal_info : List Part
codex_goal_info =
    at "threadId" require_string
    ∷ at "objective" require_string
    ∷ at "status" require_string
    ∷ at "tokenBudget" optional_number
    ∷ at "tokensUsed" require_number
    ∷ at "timeUsedSeconds" require_number
    ∷ at "createdAt" require_number
    ∷ at "updatedAt" require_number
    ∷ []

abbrev pub codex_goal_request : List Part
codex_goal_request =
    at "id" require_string
    ∷ at "session" require_string
    ∷ at "action" (require_one_of ("get" ∷ "set" ∷ "clear" ∷ []))
    ∷ at "objective" optional_string
    ∷ at "status" optional_string
    ∷ at "tokenBudget" optional_number
    ∷ []

abbrev pub codex_goal_response : List Part
codex_goal_response =
    at "id" require_string
    ∷ at "status" (require_one_of ("ok" ∷ "failed" ∷ []))
    ∷ at "goal" (unless_undefined (object codex_goal_info refl))
    ∷ at "cleared" optional_boolean
    ∷ at "error" optional_string
    ∷ []

abbrev pub codex_goal_state : List Part
codex_goal_state =
    at "session" require_string ∷ at "goal" (unless_undefined (object codex_goal_info refl)) ∷ []

abbrev pub codex_thread_title_set : List Part
codex_thread_title_set =
    at "id" require_string ∷ at "threadId" require_string ∷ at "title" require_string ∷ []
