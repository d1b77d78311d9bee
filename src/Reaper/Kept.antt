-- ===== src/Reaper/Kept.antt =====
-- When `claudeKeepAliveReason` finds no reason, told apart from its code.
use tailii_host.Prelude.{
  ℕ, ◌+◌, ◌*◌, ◌≤◌, ◌≡◌, ◌↔◌, All-map, find?-none, ◌⊎◌, inl, inr, refl, Bool, true, false, ◌&&◌,
  not, String, List, [], Option, none, some, nat_eq, string_eq, if◌then◌else◌, filter, find?,
  or_option, is_some, All, arith, Option-cases,
}
use tailii_host.Prelude.Maps
use tailii_host.Heartbeat.{HeartbeatScheduled, Heartbeat}
use tailii_host.LiveStatus.{
  find_claude_live_records, ClaudeLiveStatus, busy, shell, waiting, idle, ClaudeLiveRecord,
  is_claude_working,
}
use tailii_host.LiveStatus.Matching.{names_session, only_one, matches, find_claude_live_records_lem}
use tailii_host.Reaper.{SessionMeta, TickInput, Pane}
use tailii_host.Reaper.Reservations.{
  and-false, or_map, AllPast, scheduled_pending-AllPast, OwnerGone, owner_alive-OwnerGone,
}
use tailii_host.Reaper.Judge.{
  working, scheduled, matching_id, live_records_of, since_in_range, works_now, scheduled_reason,
  claude_keep_alive_reason,
}

-- The time since which a status holds is missing, 24 hours past, or 5 minutes ahead.
abbrev pub FarOrMissing : ℕ → Option ℕ → Type 0
FarOrMissing now none = Unit
FarOrMissing now (some since) =
    (since + 24 * 3600 * 1000 ≤ now * 1000) ⊎ (now * 1000 + 300 * 1000 ≤ since)

-- A status file that reports no work, or not a recent one.
abbrev pub IsQuiet : ℕ → ClaudeLiveRecord → Type 0
IsQuiet now r = (r.status ≡ idle) ⊎ FarOrMissing now r.status_since_ms

since_in_range-FarOrMissing :
    (now : ℕ) (since : Option ℕ) → (since_in_range now since ≡ false) ↔ FarOrMissing now since
unfolding since_in_range
since_in_range-FarOrMissing now none = (λ e. tt, λ h. refl)
since_in_range-FarOrMissing now (some since) = (λ e. ground arith, λ h. ground arith)

is_claude_working-idle : (s : ClaudeLiveStatus) → (is_claude_working s ≡ false) ↔ (s ≡ idle)
is_claude_working-idle busy = (λ e. absurd (cc), λ e. absurd (cc))
is_claude_working-idle shell = (λ e. absurd (cc), λ e. absurd (cc))
is_claude_working-idle waiting = (λ e. absurd (cc), λ e. absurd (cc))
is_claude_working-idle idle = (λ e. refl, λ e. refl)

works_now-IsQuiet : (now : ℕ) (r : ClaudeLiveRecord) → (works_now now r ≡ false) ↔ IsQuiet now r
unfolding works_now
works_now-IsQuiet now r = (
  λ e. elim ((and-false _ _).0 e) [
    | inl i ↦ inl ((is_claude_working-idle r.status).0 i)
    | inr f ↦ inr ((since_in_range-FarOrMissing now r.status_since_ms).0 f)
  ],
  λ h. (and-false _ _).1 (elim h [
    | inl i ↦ inl ((is_claude_working-idle r.status).1 i)
    | inr f ↦ inr ((since_in_range-FarOrMissing now r.status_since_ms).1 f)
  ]),
)

-- The id that files are matched by, if ids are used: the provider's, or else Claude's.
abbrev pub id_to_match : Bool → Option SessionMeta → Option String
id_to_match false meta = none
id_to_match true none = none
id_to_match true (some meta) = or_option meta.provider_session_id meta.claude_session_id

-- The files that count for a session: those of living processes that match it, unless its front
-- pids had to be asked for and that threw.
abbrev pub files_of :
    TickInput → String → Pane → Option (List ClaudeLiveRecord) → List ClaudeLiveRecord
files_of t name p none = []
files_of t name p (some records) =
    let id = id_to_match p.use_session_id (Maps.get name t.metadata) in
    if p.front_process_ids_throws && not (names_session name records)
    then []
    else only_one (not (names_session name records) && not (is_some p.front_process_ids)) (
        filter
          (λ r. matches records name p.front_process_ids id r && t.process_alive r.pid r.proc_start)
          records)

matching_id-eq :
    (p : Pane) (meta : Option SessionMeta) → matching_id p meta ≡ id_to_match p.use_session_id meta
unfolding matching_id
matching_id-eq p none = ground arith
matching_id-eq p (some meta) = ground arith

live_records_of-eq :
    (t : TickInput) (name : String) (p : Pane)
    → live_records_of t name p ≡ files_of t name p t.live_records
unfolding live_records_of
live_records_of-eq t name p = go t.live_records
  where
    go :
        (files : Option (List ClaudeLiveRecord))
        → (elim files [
          | none ↦ []
          | some records ↦
              if p.front_process_ids_throws && not (names_session name records)
              then []
              else find_claude_live_records t.process_alive records name p.front_process_ids
                  (matching_id p (Maps.get name t.metadata))
        ])
          ≡ files_of t name p files
    go none = refl
    go (some records) =
        rw
          (
            matching_id-eq p (Maps.get name t.metadata),
            find_claude_live_records_lem t.process_alive records name p.front_process_ids
                (id_to_match p.use_session_id (Maps.get name t.metadata)),
          )
          refl

-- There is no reservation, or none is left to wait for, or the process that made it is gone.
abbrev pub ReservationOver :
    TickInput → Pane → List ClaudeLiveRecord → Option HeartbeatScheduled → Type 0
ReservationOver t p records none = Unit
ReservationOver t p records (some s) = AllPast s t.now ⊎ OwnerGone t p s records s.pid

-- No file that counts reports recent work, and no reservation of a process that is there is left.
abbrev pub NotKept : TickInput → String → Heartbeat → Pane → Type 0
NotKept t name h p =
    All (IsQuiet t.now) (files_of t name p t.live_records)
    × ReservationOver t p (files_of t name p t.live_records) h.scheduled

some_if : (b : Bool) → (if b then some scheduled else none) ≡ none → b ≡ false
some_if b e = ground arith

if_none : (b : Bool) → b ≡ false → (if b then some scheduled else none) ≡ none
if_none b e = ground arith

scheduled_reason-ReservationOver :
    (t : TickInput) (p : Pane) (records : List ClaudeLiveRecord) (o : Option HeartbeatScheduled)
    → (scheduled_reason t p records o ≡ none) ↔ ReservationOver t p records o
unfolding scheduled_reason
scheduled_reason-ReservationOver t p records none = (λ e. tt, λ h. refl)
scheduled_reason-ReservationOver t p records (some s) =
    let past = scheduled_pending-AllPast s t.now in
    let gone = owner_alive-OwnerGone t p s records s.pid in
    (
      λ e. or_map past.0 gone.0 ((and-false _ _).0 (some_if _ e)),
      λ h. if_none _ ((and-false _ _).1 (or_map past.1 gone.1 h)),
    )

-- A Claude session that timed out has no reason to be kept exactly if two hold: each status file
-- that counts for it says `idle`, or has no time, or one at least 24 hours past or five minutes
-- ahead; and it has no reservation, or all are past, or their owner is not there. If the owner's
-- pid is known, that means that no file that counts has it, and that it has ended, or some file
-- counts, or the pane has no agent; if it is not, that no file that counts is of the reservations'
-- session, or that none counts and the pane has no agent.
pub claude_keep_alive_reason-NotKept :
    (t : TickInput) (name : String) (h : Heartbeat) (p : Pane)
    → (claude_keep_alive_reason t name h p ≡ none) ↔ NotKept t name h p
unfolding claude_keep_alive_reason
claude_keep_alive_reason-NotKept t name h p =
    let files = live_records_of t name p in
    let quiet = find?-none (works_now t.now) files in
    let over = scheduled_reason-ReservationOver t p files h.scheduled in
    rw (← live_records_of-eq t name p) (
      λ e. elim (Option-cases (find? (works_now t.now) files)) [
        | inl q ↦
            (All-map (λ r. (works_now-IsQuiet t.now r).0) files (quiet.0 q), over.0 (ground arith))
        | inr (r, q) ↦ absurd (ground arith)
      ],
      λ (a, b).
          reason_none files (quiet.1 (All-map (λ r. (works_now-IsQuiet t.now r).1) files a))
            (over.1 b),
    )
  where
    reason_none :
        (files : List ClaudeLiveRecord)
        → find? (works_now t.now) files ≡ none
        → scheduled_reason t p files h.scheduled ≡ none
        → (elim (find? (works_now t.now) files) [
          | some r ↦ some (working r.status)
          | none ↦ scheduled_reason t p files h.scheduled
        ])
          ≡ none
    reason_none files q k = rw q k
