-- ===== src/Cron/Renewal.antt =====
-- From when the recurring reservations that a Stop hook records count.
use tailii_host.Prelude.{
  ℕ, ◌/◌, ◌≡◌, ◌≢◌, ◌↔◌, ◌⊎◌, inl, inr, refl, sym, ap, subst, true, not, String, List, [], ◌∷◌,
  Option, none, some, ◌==◌, ==_iff, string_eq, nat_eq, find?, or_else, All, arith, Bool-cases,
  Option-cases,
}
use tailii_host.Json.{Json, null, bool, num, infinite, str, arr, obj, items, property, as_string}
use tailii_host.Heartbeat.{HeartbeatRecurring, HeartbeatScheduled}
use tailii_host.Cron.Search.{Calendar}
use tailii_host.Cron.Stop.{
  ScheduledFromCronsOptions, Collected, same_text, same_owner, previous_of, first_seen_of,
  first_seen, add_one_shot, add_recurring, is_object, is_recurring, collect_item, fire_ms_of,
  collect, scheduled_from_session_crons,
}
use tailii_host.Cron.Bounds.{one_shot-recurring, if-holds, scheduled_of-fields}

-- The time that the first entry of an id has, or a time given where no entry has the id.
abbrev pub TimeIn : List HeartbeatRecurring → String → ℕ → ℕ → Type 0
TimeIn [] id now ts = ts ≡ now
TimeIn (e ∷ es) id now ts =
    ((e.id ≡ id) × (ts ≡ e.first_seen_ts)) ⊎ ((e.id ≢ id) × TimeIn es id now ts)

-- The same pid, where both are known, and else the same session.
abbrev pub OwnedAlike : Option ℕ → Option ℕ → Option String → Option String → Type 0
OwnedAlike (some a) (some b) s t = a ≡ b
OwnedAlike (some a) none s t = s ≡ t
OwnedAlike none p s t = s ≡ t

abbrev pub SameOwner : HeartbeatScheduled → ScheduledFromCronsOptions → Type 0
SameOwner previous options =
    OwnedAlike previous.pid options.pid previous.session_id options.session_id

-- From when a recurring reservation counts, given the record before.
abbrev pub CountsFrom :
    ScheduledFromCronsOptions → ℕ → Option HeartbeatScheduled → HeartbeatRecurring → Type 0
CountsFrom options now none r = r.first_seen_ts ≡ now
CountsFrom options now (some previous) r =
    ((r.id ≢ "") × SameOwner previous options × TimeIn previous.recurring r.id now r.first_seen_ts)
    ⊎ (((r.id ≡ "") ⊎ ¬ SameOwner previous options) × (r.first_seen_ts ≡ now))

find-TimeIn :
    (rs : List HeartbeatRecurring) (id : String) (now : ℕ)
    → TimeIn rs id now
        (or_else (first_seen_of (find? (λ (r : HeartbeatRecurring). r.id == id) rs)) now)
find-TimeIn [] id now = refl
find-TimeIn (r ∷ rs) id now = elim (Bool-cases (r.id == id)) [
  | inl same ↦ inl ((==_iff r.id id).0 same, rw same refl)
  | inr apart ↦
      inr ((λ q. absurd (ground (arith, ==_iff r.id id))), rw apart (find-TimeIn rs id now))
]

same_text-eq : (a b : Option String) → (same_text a b ≡ true) ↔ (a ≡ b)
unfolding same_text
same_text-eq none none = (λ e. refl, λ e. refl)
same_text-eq none (some b) = (λ e. absurd (cc), λ e. absurd (cc))
same_text-eq (some a) none = (λ e. absurd (cc), λ e. absurd (cc))
same_text-eq (some a) (some b) = (λ e. ap some ((==_iff a b).0 e), λ e. ground (arith, ==_iff a b))

same_owner-SameOwner :
    (previous : HeartbeatScheduled) (options : ScheduledFromCronsOptions)
    → (same_owner previous options ≡ true) ↔ SameOwner previous options
unfolding same_owner
same_owner-SameOwner previous options = elim (Option-cases previous.pid) [
  | inl a ↦ rw a (same_text-eq previous.session_id options.session_id)
  | inr (m, a) ↦ elim (Option-cases options.pid) [
    | inl b ↦ rw (a, b) (same_text-eq previous.session_id options.session_id)
    | inr (n, b) ↦ rw (a, b) (==_iff m n)
  ]
]

first_seen-CountsFrom :
    (options : ScheduledFromCronsOptions) (id : String) (now : ℕ)
    (previous : Option HeartbeatScheduled)
    → options.previous ≡ previous
    → CountsFrom options now previous
        (record { id = id; first_seen_ts = first_seen (previous_of options) id now })
unfolding previous_of first_seen
first_seen-CountsFrom options id now none e = rw e refl
first_seen-CountsFrom options id now (some p) e = elim (Bool-cases (same_owner p options)) [
  | inr other ↦
      inr (
        inr (λ o. absurd (ground (arith, (same_owner-SameOwner p options).1 o))),
        rw (e, other) refl,
      )
  | inl owner ↦ elim (Bool-cases (id == "")) [
    | inl empty ↦ inr (inl ((==_iff id "").0 empty), rw (e, owner, empty) refl)
    | inr named ↦ inl (
      (λ q. absurd (ground (arith, ==_iff id ""))),
      (same_owner-SameOwner p options).0 owner,
      rw (e, owner, named) (find-TimeIn p.recurring id now),
    )
  ]
]

-- What holds of every entry as `collect_item` makes it holds of all that the loop collects.
collect-All :
    (P : HeartbeatRecurring → Type 0) (cal : Calendar) (previous : Option HeartbeatScheduled)
    (now_ms : ℕ) (values : List Json)
    → ((id : String)
        → P (record { id = id; first_seen_ts = first_seen previous id (now_ms / 1000) }))
    → All P (collect cal previous now_ms values).recurring
unfolding collect collect_item
collect-All P cal previous now_ms [] h = tt
collect-All P cal previous now_ms (v ∷ values) h =
    let rest = collect cal previous now_ms values in
    let before = collect-All P cal previous now_ms values h in
    let fire_ms = fire_ms_of cal (as_string (property "schedule" v)) now_ms in
    let id = or_else (as_string (property "id" v)) "" in
    let Holds = λ (c : Collected). All P c.recurring in
    if-holds Holds (not (is_object v)) rest _ before (
      if-holds Holds (is_recurring (property "recurring" v))
        (add_recurring previous id (now_ms / 1000) rest) (add_one_shot fire_ms rest)
        (unfold add_recurring in (h id, before))
        (subst (All P) (sym (one_shot-recurring fire_ms rest)) before))

-- A Stop hook does not renew a recurring reservation: each that it records counts from the time of
-- the first of its id in the record before, if that record has the same owner (the same pid, where
-- both are known, and else the same session) and an entry of the id, and the id is not empty; and
-- else from the time of this Stop.
pub recurring_not_renewed :
    (cal : Calendar) (value : Json) (now_ms : ℕ) (options : ScheduledFromCronsOptions)
    (s : HeartbeatScheduled)
    → scheduled_from_session_crons cal value now_ms options ≡ some s
    → All (CountsFrom options (now_ms / 1000) options.previous) s.recurring
unfolding scheduled_from_session_crons
recurring_not_renewed cal (arr values) now_ms options s e =
    let now = now_ms / 1000 in
    let collected = collect cal (previous_of options) now_ms (items values) in
    let same = (scheduled_of-fields now options collected s e).1 in
    subst (All (CountsFrom options now options.previous)) (sym same) (
      collect-All (CountsFrom options now options.previous) cal (previous_of options) now_ms
        (items values) (λ id. first_seen-CountsFrom options id now options.previous refl))
recurring_not_renewed cal null now_ms options s e = absurd (cc)
recurring_not_renewed cal (bool b) now_ms options s e = absurd (cc)
recurring_not_renewed cal (num n) now_ms options s e = absurd (cc)
recurring_not_renewed cal infinite now_ms options s e = absurd (cc)
recurring_not_renewed cal (str t) now_ms options s e = absurd (cc)
recurring_not_renewed cal (obj fields) now_ms options s e = absurd (cc)
