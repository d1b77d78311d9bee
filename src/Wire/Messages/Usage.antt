-- ===== src/Wire/Messages/Usage.antt =====
-- The messages on usage.
use tailii_host.Prelude.{List, [], ◌∷◌, refl, none}
use tailii_host.Wire.Readers.{
  unless_undefined, require_string, optional_string, require_number, optional_number,
  require_boolean, optional_one_of,
}
use tailii_host.Wire.Arrays.{array_slice}
use tailii_host.Wire.Parts.{Part, at}
use tailii_host.Wire.Objects.{object, optional_object}

abbrev pub usage_request : List Part
usage_request =
    at "id" require_string ∷ at "agentType" (optional_one_of ("claude" ∷ "codex" ∷ [])) ∷ []

abbrev pub usage_response : List Part
usage_response =
    at "id" require_string
    ∷ at "inputTokens" require_number
    ∷ at "outputTokens" require_number
    ∷ at "cacheReadTokens" require_number
    ∷ at "cacheCreationTokens" require_number
    ∷ at "turns" require_number
    ∷ at "fiveHourUtilization" optional_number
    ∷ at "fiveHourResetsAt" optional_string
    ∷ at "sevenDayUtilization" optional_number
    ∷ at "sevenDayResetsAt" optional_string
    ∷ at "sevenDayFableUtilization" optional_number
    ∷ at "sevenDayFableResetsAt" optional_string
    ∷ []

abbrev pub claude_account_usage : List Part
claude_account_usage =
    at "fiveHourPercent" optional_number
    ∷ at "fiveHourResetsAt" optional_string
    ∷ at "sevenDayPercent" optional_number
    ∷ at "sevenDayResetsAt" optional_string
    ∷ at "premiumPercent" optional_number
    ∷ at "premiumResetsAt" optional_string
    ∷ at "plan" optional_string
    ∷ at "rateLimitTier" optional_string
    ∷ at "account" optional_string
    ∷ []

abbrev pub codex_account_usage : List Part
codex_account_usage =
    at "planType" optional_string
    ∷ at "fiveHourPercent" optional_number
    ∷ at "fiveHourResetsAt" optional_string
    ∷ at "weeklyPercent" optional_number
    ∷ at "weeklyResetsAt" optional_string
    ∷ at "account" optional_string
    ∷ []

abbrev pub host_diagnostic_check : List Part
host_diagnostic_check =
    at "id" require_string
    ∷ at "label" require_string
    ∷ at "ok" require_boolean
    ∷ at "required" require_boolean
    ∷ at "detail" require_string
    ∷ at "remediation" optional_string
    ∷ []

abbrev pub host_versions : List Part
host_versions =
    at "hostVersion" optional_string
    ∷ at "claudeCliVersion" optional_string
    ∷ at "codexCliVersion" optional_string
    ∷ at "diagnostics" (unless_undefined (array_slice none (object host_diagnostic_check refl)))
    ∷ []

abbrev pub account_usage_response : List Part
account_usage_response =
    at "id" require_string
    ∷ at "claude" (optional_object claude_account_usage refl)
    ∷ at "codex" (optional_object codex_account_usage refl)
    ∷ at "claudeError" optional_string
    ∷ at "codexError" optional_string
    ∷ at "host" (optional_object host_versions refl)
    ∷ at "fetchedAt" optional_string
    ∷ []
