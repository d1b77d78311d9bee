-- ===== src/Reaper/Reservations.antt =====
-- When the reservations of a session are over, told apart from the code.
use tailii_host.Prelude.{
  ℕ, ◌+◌, ◌*◌, ◌≤◌, ◌≡◌, ◌≢◌, ◌↔◌, All-map, any-false, ◌⊎◌, inl, inr, refl, ap, ◌∙◌, Bool, true,
  false, ◌&&◌, ◌||◌, String, List, [], ◌∷◌, Option, none, some, ◌==◌, ==_iff, nat_eq, string_eq,
  if◌then◌else◌, ltb, leb, any, length, All, arith, Bool-cases,
}
use tailii_host.Heartbeat.{HeartbeatRecurring, HeartbeatScheduled}
use tailii_host.LiveStatus.{ClaudeLiveRecord}
use tailii_host.Reaper.{TickInput, Pane}
use tailii_host.Reaper.Schedule.{scheduled_pending}
use tailii_host.Reaper.Judge.{start_of, own_record, same_session, owner_alive}

pub and-false : (a b : Bool) → ((a && b) ≡ false) ↔ ((a ≡ false) ⊎ (b ≡ false))
and-false a b = (λ e. ground arith, λ h. ground arith)

-- No reservation is left to wait for: the recurring ones were first seen at least seven days and
-- forty minutes ago; a record with one that could not be read was made at least 24 hours ago; and
-- the times of the others are at least ten minutes past, if the record is less than seven days old.
abbrev pub AllPast : HeartbeatScheduled → ℕ → Type 0
AllPast s now =
    All (λ (r : HeartbeatRecurring). r.first_seen_ts + 7 * 24 * 3600 + 40 * 60 ≤ now) s.recurring
    × ((s.unparsed ≡ false) ⊎ (s.at_ts + 24 * 3600 ≤ now))
    × ((s.at_ts + 7 * 24 * 3600 ≤ now) ⊎ All (λ (ts : ℕ). ts + 10 * 60 ≤ now) s.one_shot_ts)

any_before-All :
    {A : Type 0} (deadline : A → ℕ) (now : ℕ) (xs : List A)
    → (any (λ x. ltb now (deadline x)) xs ≡ false) ↔ All (λ x. deadline x ≤ now) xs
any_before-All deadline now xs = (
  λ e. All-map (λ x p. ground arith) xs ((any-false (λ x. ltb now (deadline x)) xs).0 e),
  λ h. (any-false (λ x. ltb now (deadline x)) xs).1 (All-map (λ x p. ground arith) xs h),
)

protected_false :
    (a b c d : Bool)
    → ((if a then true else if b then true else if c then false else d) ≡ false)
      ↔ ((a ≡ false) × (b ≡ false) × ((c ≡ true) ⊎ (d ≡ false)))
protected_false a b c d = (λ e. ground arith, λ h. ground arith)

pub or_map : {A B C D : Type 0} → (A → C) → (B → D) → A ⊎ B → C ⊎ D
or_map f g (inl a) = inl (f a)
or_map f g (inr b) = inr (g b)

pub scheduled_pending-AllPast :
    (s : HeartbeatScheduled) (now : ℕ) → (scheduled_pending s now ≡ false) ↔ AllPast s now
unfolding scheduled_pending
scheduled_pending-AllPast s now =
    let recurring =
      any_before-All (λ (r : HeartbeatRecurring). r.first_seen_ts + 7 * 24 * 3600 + 40 * 60) now
        s.recurring in
    let one_shot = any_before-All (λ (ts : ℕ). ts + 10 * 60) now s.one_shot_ts in
    let now_past = s.at_ts + 7 * 24 * 3600 in
    (
      λ e.
          let (a, b, c) = (protected_false _ _ (leb now_past now) _).0 e in
          (recurring.0 a, ground arith, or_map (λ l. ground arith) one_shot.0 c),
      λ (r, u, o).
          (protected_false _ _ (leb now_past now) _).1
            (recurring.1 r, ground arith, or_map (λ l. ground arith) one_shot.1 o),
    )

-- The own file of a process, and the time at which it says that the process started.
abbrev pub start_in : Option ClaudeLiveRecord → Option String
start_in none = none
start_in (some r) = r.proc_start

abbrev pub started_at : Option (List ClaudeLiveRecord) → Option ClaudeLiveRecord → Option String
started_at none own = none
started_at (some records) own = start_in own

-- A file that is not of the session that a reservation was made in.
abbrev pub OtherSession : Option String → ClaudeLiveRecord → Type 0
OtherSession wanted r = (id : String) × (wanted ≡ some id) × (r.session_id ≢ some id)

-- The process that made the reservations is not there. If its pid is known: no file that counts has
-- it, and it has ended, or some file counts, or the pane has no agent. If it is not: no file that
-- counts is of the reservation's session, or none counts and the pane has no agent.
abbrev pub OwnerGone :
    TickInput → Pane → HeartbeatScheduled → List ClaudeLiveRecord → Option ℕ → Type 0
OwnerGone t p s records (some pid) =
    All (λ (r : ClaudeLiveRecord). r.pid ≢ pid) records
    × ((t.process_alive pid (started_at t.live_records (t.record_of_pid pid)) ≡ false)
        ⊎ (records ≢ [])
        ⊎ (p.agent_alive ≡ false))
OwnerGone t p s [] none = p.agent_alive ≡ false
OwnerGone t p s (r ∷ rs) none = All (OtherSession s.session_id) (r ∷ rs)

same_session-OtherSession :
    (wanted session : Option String)
    → (same_session wanted session ≡ false)
      ↔ ((id : String) × (wanted ≡ some id) × (session ≢ some id))
unfolding same_session
same_session-OtherSession none session = (λ e. absurd (cc), λ (id, q, n). absurd (cc))
same_session-OtherSession (some id) none = (λ e. (id, refl, λ q. absurd (cc)), λ h. refl)
same_session-OtherSession (some id) (some other) = (
  λ e. (id, refl, λ q. absurd (ground (arith, ==_iff other id))),
  λ (wanted, q, n). elim (Bool-cases (other == id)) [
    | inl same ↦ absurd (n (ap some ((==_iff other id).0 same) ∙ q))
    | inr apart ↦ apart
  ],
)

others-All :
    (wanted : Option String) (records : List ClaudeLiveRecord)
    → (any (λ (r : ClaudeLiveRecord). same_session wanted r.session_id) records ≡ false)
      ↔ All (OtherSession wanted) records
others-All wanted records = (
  λ e.
      All-map (λ r. (same_session-OtherSession wanted r.session_id).0) records
        ((any-false _ _).0 e),
  λ h.
      (any-false _ _).1
        (All-map (λ r. (same_session-OtherSession wanted r.session_id).1) records h),
)

other_pids-All :
    (pid : ℕ) (records : List ClaudeLiveRecord)
    → (any (λ (r : ClaudeLiveRecord). r.pid == pid) records ≡ false)
      ↔ All (λ (r : ClaudeLiveRecord). r.pid ≢ pid) records
other_pids-All pid records = (
  λ e. All-map (λ r q. ground arith) records ((any-false _ _).0 e),
  λ h. (any-false _ _).1 (All-map (λ r n. ground arith) records h),
)

own_start :
    (t : TickInput) (pid : ℕ)
    → start_of (own_record t pid) ≡ started_at t.live_records (t.record_of_pid pid)
unfolding own_record
own_start t pid = go t.live_records (t.record_of_pid pid)
  where
    go :
        (files : Option (List ClaudeLiveRecord)) (own : Option ClaudeLiveRecord)
        → start_of (elim files [ none ↦ none | some _ ↦ own ]) ≡ started_at files own
    go none own = refl
    go (some files) none = refl
    go (some files) (some r) = refl

agent_only :
    (a b c : Bool) (records : List ClaudeLiveRecord)
    → ((a || b && (length records == 0) && c) ≡ false)
      ↔ ((a ≡ false) × ((b ≡ false) ⊎ (records ≢ []) ⊎ (c ≡ false)))
agent_only a b c [] = (
  λ e. (ground arith, ground arith),
  λ (e, h). elim h [
    | inl x ↦ ground arith
    | inr (inl n) ↦ absurd (n refl)
    | inr (inr x) ↦ ground arith
  ],
)
agent_only a b c (r ∷ rs) =
    (λ e. (ground arith, inr (inl (λ q. absurd (cc)))), λ (e, h). ground arith)

pub owner_alive-OwnerGone :
    (t : TickInput) (p : Pane) (s : HeartbeatScheduled) (records : List ClaudeLiveRecord)
    (pid : Option ℕ)
    → (owner_alive t p s records pid ≡ false) ↔ OwnerGone t p s records pid
unfolding owner_alive
owner_alive-OwnerGone t p s [] none = (λ e. e, λ h. h)
owner_alive-OwnerGone t p s (r ∷ rs) none = (
  λ e. (others-All s.session_id (r ∷ rs)).0 (ground arith),
  λ h. ground (arith, (others-All s.session_id (r ∷ rs)).1 h),
)
owner_alive-OwnerGone t p s records (some pid) =
    let pids = other_pids-All pid records in
    let started = own_start t pid in
    (
      λ e. let (a, b) = (agent_only _ _ _ records).0 e in (pids.0 a, rw (← started) b),
      λ (a, b). (agent_only _ _ _ records).1 (pids.1 a, rw started b),
    )
