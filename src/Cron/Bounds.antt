-- ===== src/Cron/Bounds.antt =====
-- How long the reservations that a Stop hook records protect the session.
use tailii_host.Prelude.{
  ℕ, ◌+◌, ◌/◌, ◌≤◌, ◌≡◌, refl, sym, Bool, true, false, String, List, [], ◌∷◌, Option, none, some,
  ◌==◌, string_eq, nat_eq, if◌then◌else◌, find?, arith, subst, not, or_else, Option-cases, inl, inr,
}
use tailii_host.Json.{Json, null, bool, num, infinite, str, arr, obj, items, property, as_string}
use tailii_host.Heartbeat.{HeartbeatRecurring, HeartbeatScheduled}
use tailii_host.Reaper.{scheduled_max_seconds, scheduled_recurring_final_grace_seconds}
use tailii_host.Reaper.Schedule.{SeenBy, scheduled_pending, scheduled_pending_ends}
use tailii_host.Cron.Search.{Calendar}
use tailii_host.Cron.Stop.{
  ScheduledFromCronsOptions, Collected, same_owner, previous_of, first_seen, add_one_shot,
  add_recurring, is_object, is_recurring, collect_item, fire_ms_of, collect, scheduled_of,
  scheduled_from_session_crons,
}

-- The record before, if any, saw its recurring reservations by a time.
abbrev pub PreviousSeenBy : ℕ → Option HeartbeatScheduled → Type 0
PreviousSeenBy ts none = Unit
PreviousSeenBy ts (some previous) = SeenBy ts previous.recurring

find_seen :
    (ts : ℕ) (id : String) (rs : List HeartbeatRecurring) (entry : HeartbeatRecurring)
    → SeenBy ts rs
    → find? (λ (r : HeartbeatRecurring). r.id == id) rs ≡ some entry
    → entry.first_seen_ts ≤ ts
find_seen ts id [] entry h e = absurd (cc)
find_seen ts id (r ∷ rs) entry (p, h) e = ground (arith, find_seen ts id rs entry h)

first_seen-le :
    (previous : Option HeartbeatScheduled) (id : String) (ts : ℕ)
    → PreviousSeenBy ts previous
    → first_seen previous id ts ≤ ts
unfolding first_seen
first_seen-le none id ts h = ground arith
first_seen-le (some s) id ts h =
    elim (Option-cases (find? (λ (r : HeartbeatRecurring). r.id == id) s.recurring)) [
      | inl e ↦ ground arith
      | inr (entry, e) ↦ ground (arith, find_seen ts id s.recurring entry h e)
    ]

pub one_shot-recurring : (o : Option ℕ) (c : Collected) → (add_one_shot o c).recurring ≡ c.recurring
unfolding add_one_shot
one_shot-recurring none c = refl
one_shot-recurring (some n) c = refl

pub if-holds :
    {A : Type 0} (P : A → Type 0) (b : Bool) (x y : A) → P x → P y → P (if b then x else y)
if-holds P true x y h k = h
if-holds P false x y h k = k

collect_item-SeenBy :
    (cal : Calendar) (previous : Option HeartbeatScheduled) (now_ms : ℕ) (item : Json)
    (rest : Collected)
    → PreviousSeenBy (now_ms / 1000) previous
    → SeenBy (now_ms / 1000) rest.recurring
    → SeenBy (now_ms / 1000) (collect_item cal previous now_ms item rest).recurring
unfolding collect_item
collect_item-SeenBy cal previous now_ms item rest h k =
    let Seen = λ (c : Collected). SeenBy (now_ms / 1000) c.recurring in
    let id = or_else (as_string (property "id" item)) "" in
    let fire_ms = fire_ms_of cal (as_string (property "schedule" item)) now_ms in
    if-holds Seen (not (is_object item)) rest _ k (
      if-holds Seen (is_recurring (property "recurring" item))
        (add_recurring previous id (now_ms / 1000) rest) (add_one_shot fire_ms rest)
        (unfold add_recurring in (first_seen-le previous id (now_ms / 1000) h, k))
        (subst (SeenBy (now_ms / 1000)) (sym (one_shot-recurring fire_ms rest)) k))

collect-SeenBy :
    (cal : Calendar) (previous : Option HeartbeatScheduled) (now_ms : ℕ) (values : List Json)
    → PreviousSeenBy (now_ms / 1000) previous
    → SeenBy (now_ms / 1000) (collect cal previous now_ms values).recurring
unfolding collect
collect-SeenBy cal previous now_ms [] h = tt
collect-SeenBy cal previous now_ms (v ∷ values) h =
    collect_item-SeenBy cal previous now_ms v (collect cal previous now_ms values) h
      (collect-SeenBy cal previous now_ms values h)

previous_of-SeenBy :
    (options : ScheduledFromCronsOptions) (ts : ℕ)
    → PreviousSeenBy ts options.previous
    → PreviousSeenBy ts (previous_of options)
unfolding previous_of
previous_of-SeenBy options ts h = go options.previous h
  where
    go :
        (o : Option HeartbeatScheduled)
        → PreviousSeenBy ts o
        → PreviousSeenBy ts (elim o [
          | none ↦ none
          | some previous ↦ if same_owner previous options then some previous else none
        ])
    go none k = tt
    go (some s) k = if-holds (PreviousSeenBy ts) (same_owner s options) (some s) none k tt

pub scheduled_of-fields :
    (ts : ℕ) (options : ScheduledFromCronsOptions) (c : Collected) (s : HeartbeatScheduled)
    → scheduled_of ts options c ≡ some s
    → (s.at_ts ≡ ts) × (s.recurring ≡ c.recurring)
unfolding scheduled_of
scheduled_of-fields ts options c s e = ground arith

-- Whatever a Stop hook reports, and whatever times its expressions have, the reservations recorded
-- for it protect the session for at most seven days and forty minutes from that Stop, if no
-- recurring reservation of the record before it has a `firstSeenTs` after that Stop.
pub stop_protection_ends :
    (cal : Calendar) (value : Json) (now_ms later : ℕ) (options : ScheduledFromCronsOptions)
    (s : HeartbeatScheduled)
    → PreviousSeenBy (now_ms / 1000) options.previous
    → scheduled_from_session_crons cal value now_ms options ≡ some s
    → now_ms / 1000 + scheduled_max_seconds + scheduled_recurring_final_grace_seconds ≤ later
    → scheduled_pending s later ≡ false
unfolding scheduled_from_session_crons
stop_protection_ends cal (arr values) now_ms later options s h e l =
    let (at, same) =
      scheduled_of-fields (now_ms / 1000) options
        (collect cal (previous_of options) now_ms (items values)) s e in
    let seen : SeenBy (now_ms / 1000) s.recurring = subst (SeenBy (now_ms / 1000)) (sym same) (
      collect-SeenBy cal (previous_of options) now_ms (items values)
        (previous_of-SeenBy options (now_ms / 1000) h)) in
    scheduled_pending_ends s later (subst (λ ts. SeenBy ts s.recurring) (sym at) seen)
      (omega (arith, at, l))
stop_protection_ends cal null now_ms later options s h e l = absurd (cc)
stop_protection_ends cal (bool b) now_ms later options s h e l = absurd (cc)
stop_protection_ends cal (num n) now_ms later options s h e l = absurd (cc)
stop_protection_ends cal infinite now_ms later options s h e l = absurd (cc)
stop_protection_ends cal (str t) now_ms later options s h e l = absurd (cc)
stop_protection_ends cal (obj fields) now_ms later options s h e l = absurd (cc)
