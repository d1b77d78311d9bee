-- ===== src/Heartbeat.antt =====
-- src/sessions/heartbeat.ts: the activity record of a session, its JSON and the directory of records.
-- The directory is a map from session names to files; a file holds what `JSON.parse` makes of its
-- text, `none` if it refuses it. The write to a temporary name and the rename are one step, and the
-- file system's own failures are left out. Times are natural numbers.
pub mod Codec
pub mod Store
pub mod Laws
use tailii_host.Prelude.{
  ℕ, Bool, String, List, Option, ◌==◌, nat_eq, string_eq, ◌&&◌, ◌||◌, not, any,
}
use tailii_host.Prelude.Text.{codes}

pub data HeartbeatState : Type 0 where
  active idle : HeartbeatState

pub record HeartbeatRecurring : Type 0 where
  pub id : String
  pub first_seen_ts : ℕ

pub record HeartbeatScheduled : Type 0 where
  pub at_ts : ℕ
  pub pid : Option ℕ
  pub session_id : Option String
  pub one_shot_ts : List ℕ
  pub recurring : List HeartbeatRecurring
  pub unparsed : Bool

pub record Heartbeat : Type 0 where
  pub ts : ℕ
  pub state : HeartbeatState
  pub event : Option String
  pub since_ms : Option ℕ
  pub scheduled : Option HeartbeatScheduled

-- The `scheduled` of a write: left out, cleared by `null`, or given.
pub data ScheduledWrite : Type 0 where
  keep clear : ScheduledWrite
  replace : HeartbeatScheduled → ScheduledWrite

pub record HeartbeatWrite : Type 0 where
  pub ts : ℕ
  pub state : HeartbeatState
  pub event : Option String
  pub since_ms : Option ℕ
  pub scheduled : ScheduledWrite

-- `validateSessionName` of sessionMetadataStore.ts: false where it throws.
unfoldable pub valid_session_name : String → Bool
valid_session_name name =
    not (name == "")
    && not (any (λ c. c == 0) (codes name))
    && not (any (λ c. c == b'/') (codes name))
    && not (name == "." || name == "..")
