-- ===== src/Reaper/Schedule.antt =====
-- `scheduledPending`: whether a session's reservations still protect it.
use tailii_host.Prelude.{
  ℕ, ◌+◌, ◌≤◌, ◌≡◌, refl, Bool, true, false, List, [], ◌∷◌, ◌&&◌, if◌then◌else◌, ltb, leb, any,
  arith,
}
use tailii_host.Heartbeat.{HeartbeatRecurring, HeartbeatScheduled}
use tailii_host.Reaper.{
  scheduled_max_seconds, scheduled_recurring_final_grace_seconds, scheduled_unparsed_max_seconds,
  scheduled_one_shot_grace_seconds,
}

unfoldable pub scheduled_pending : HeartbeatScheduled → ℕ → Bool
scheduled_pending s now =
    if any
      (λ entry.
        ltb now
          (entry.first_seen_ts + scheduled_max_seconds + scheduled_recurring_final_grace_seconds))
      s.recurring
    then true
    else if s.unparsed && ltb now (s.at_ts + scheduled_unparsed_max_seconds)
    then true
    else if leb (s.at_ts + scheduled_max_seconds) now
    then false
    else any (λ fire_ts. ltb now (fire_ts + scheduled_one_shot_grace_seconds)) s.one_shot_ts

-- No recurring reservation was first seen after `t`.
abbrev pub SeenBy : ℕ → List HeartbeatRecurring → Type 0
SeenBy t [] = Unit
SeenBy t (r ∷ rs) = (r.first_seen_ts ≤ t) × SeenBy t rs

no_recurring_left :
    (t now : ℕ) (rs : List HeartbeatRecurring)
    → SeenBy t rs
    → t + scheduled_max_seconds + scheduled_recurring_final_grace_seconds ≤ now
    → any
        (λ (entry : HeartbeatRecurring).
          ltb now
            (entry.first_seen_ts + scheduled_max_seconds + scheduled_recurring_final_grace_seconds))
        rs
      ≡ false
no_recurring_left t now [] h l = refl
no_recurring_left t now (r ∷ rs) (p, h) l = ground (arith, no_recurring_left t now rs h l)

-- Whatever its fire times say, a record written at `at_ts` whose recurring reservations were seen
-- by then protects for at most seven days and forty minutes.
pub scheduled_pending_ends :
    (s : HeartbeatScheduled) (now : ℕ)
    → SeenBy s.at_ts s.recurring
    → s.at_ts + scheduled_max_seconds + scheduled_recurring_final_grace_seconds ≤ now
    → scheduled_pending s now ≡ false
unfolding scheduled_pending
scheduled_pending_ends s now h l = ground (arith, no_recurring_left s.at_ts now s.recurring h l)
