-- ===== src/Tests/LiveStatus.antt =====
-- Runs of the matching of status files.
use tailii_host.Prelude.{
  ℕ, ◌≡◌, refl, Bool, true, not, ◌&&◌, String, List, [], ◌∷◌, Option, none, some, filter, is_some,
}
use tailii_host.Prelude.Text.{is_prefix}
use tailii_host.LiveStatus.{
  ClaudeLiveStatus, ClaudeLiveRecord, busy, idle, find_claude_live_records,
}
use tailii_host.LiveStatus.Matching.{only_one, names_session, matches, find_claude_live_records_lem}

abbrev file : ℕ → ClaudeLiveStatus → Option String → ClaudeLiveRecord
file pid status tmux = record {
  pid = pid;
  session_id = some "c1";
  status = status;
  status_since_ms = none;
  tmux = tmux;
  proc_start = none;
}

-- One in the session's tmux, one of a copy of the conversation elsewhere.
abbrev two_files : List ClaudeLiveRecord
two_files = file 10 busy (some "cs-a:@1.%2") ∷ file 20 idle none ∷ []

abbrev all_alive : ℕ → Option String → Bool
all_alive _ _ = true

tmux_name_decides :
    find_claude_live_records all_alive two_files "cs-a" none (some "c1")
    ≡ file 10 busy (some "cs-a:@1.%2") ∷ []
unfolding find_claude_live_records is_prefix
tmux_name_decides = refl

find_claude_live_records_example :
    find_claude_live_records all_alive two_files "s-b" none (some "c1")
    ≡ only_one (not (names_session "s-b" two_files) && not (is_some {A = List ℕ} none)) (
        filter
          (λ r. matches two_files "s-b" none (some "c1") r && all_alive r.pid r.proc_start)
          two_files)
find_claude_live_records_example =
    find_claude_live_records_lem all_alive two_files "s-b" none (some "c1")
