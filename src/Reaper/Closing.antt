-- ===== src/Reaper/Closing.antt =====
-- From the heartbeat on: what is known when `judge` closes a session.
use tailii_host.Prelude.{
  ==_iff, ◌⊎◌, ◌+◌, ◌≤◌, ◌≡◌, refl, sym, ◌∙◌, inl, inr, false, String, Option, none, some, nat_eq,
  string_eq, ltb, arith, Bool-cases, Option-cases,
}
use tailii_host.Prelude.Maps
use tailii_host.Heartbeat.{HeartbeatState, active, idle, Heartbeat}
use tailii_host.Heartbeat.Store.{read_heartbeat}
use tailii_host.Reaper.Kept.{NotKept, claude_keep_alive_reason-NotKept}
use tailii_host.Reaper.{Agent, claude, codex, SessionMeta, World, TickInput, Pane}
use tailii_host.Reaper.Judge.{
  claude_keep_alive_reason, moved_on, judge_servers, judge_overdue, judge_timed, agent_of,
  judge_state, judge_heartbeat,
}
use tailii_host.Reaper.Apart.{ServersApart}
use tailii_host.Reaper.Servers.{Closes, second_reading, judge_servers-Closes, Closes-map}

-- The metadata name Codex as the agent.
abbrev pub IsCodex : Option SessionMeta → Type 0
IsCodex meta = (m : SessionMeta) × (meta ≡ some m) × (m.agent ≡ some codex)

-- Nothing of the session's own holds it back: it is a Codex, or its heartbeat is idle and no file
-- reports recent work and no reservation is left whose owner is there.
abbrev pub NotWorking : TickInput → String → Heartbeat → Pane → Type 0
NotWorking t name h p = IsCodex (Maps.get name t.metadata) ⊎ ((h.state ≡ idle) × NotKept t name h p)

-- A heartbeat read again, if there is one, has the time of the first.
abbrev pub SameTime : Heartbeat → Option Heartbeat → Type 0
SameTime h none = Unit
SameTime h (some again) = again.ts ≡ h.ts

-- Why a session without prewarm may be closed: it has a heartbeat, the time since is at least the
-- timeout, nothing of its own holds it back, no server belongs to it, and the second reading finds
-- no heartbeat of another time.
pub record IdleLapsed (t : TickInput) (name : String) (p : Pane) (w : World) : Type 0 where
  pub heartbeat : Heartbeat
  pub read_first : read_heartbeat w.heartbeats name ≡ some heartbeat
  pub overdue : heartbeat.ts + t.timeout_seconds ≤ t.now
  pub not_working : NotWorking t name heartbeat p
  pub servers_apart : ServersApart t p
  pub not_moved : SameTime heartbeat (second_reading p name w)

agent_cases : (meta : Option SessionMeta) → IsCodex meta ⊎ (agent_of meta ≡ claude)
agent_cases none = inr refl
agent_cases (some m) = go m.agent refl
  where
    go : (a : Option Agent) → m.agent ≡ a → IsCodex (some m) ⊎ (agent_of (some m) ≡ claude)
    go none e = inr (rw e refl)
    go (some claude) e = inr (rw e refl)
    go (some codex) e = inl (m, refl, e)

pub IsCodex-agent_of : (meta : Option SessionMeta) → IsCodex meta → agent_of meta ≡ codex
IsCodex-agent_of meta (m, e, a) = rw (e, a) refl

-- What the tests on agent, state and reasons say of the session.
NotWorking-of :
    (t : TickInput) (name : String) (h : Heartbeat) (p : Pane)
    → (agent_of (Maps.get name t.metadata) ≡ claude
        → (h.state ≡ idle) × (claude_keep_alive_reason t name h p ≡ none))
    → NotWorking t name h p
NotWorking-of t name h p k = elim (agent_cases (Maps.get name t.metadata)) [
  | inl c ↦ inl c
  | inr c ↦ inr ((k c).0, (claude_keep_alive_reason-NotKept t name h p).0 (k c).1)
]

moved_on-SameTime :
    (h : Heartbeat) (again : Option Heartbeat) → moved_on h again ≡ false → SameTime h again
unfolding moved_on
moved_on-SameTime h none e = tt
moved_on-SameTime h (some again) e = ground (arith, ==_iff again.ts h.ts)

judge_overdue-eq :
    (t : TickInput) (name : String) (h : Heartbeat) (p : Pane) (w : World)
    → claude_keep_alive_reason t name h p ≡ none
    → judge_overdue t name h p w claude ≡ judge_servers t name h p w
unfolding judge_overdue
judge_overdue-eq t name h p w k = rw (k, judge_overdue)

judge_overdue-eq_codex :
    (t : TickInput) (name : String) (h : Heartbeat) (p : Pane) (w : World)
    → judge_overdue t name h p w codex ≡ judge_servers t name h p w
unfolding judge_overdue
judge_overdue-eq_codex t name h p w = refl

judge_timed-eq :
    (t : TickInput) (name : String) (h : Heartbeat) (p : Pane) (w : World) (agent : Agent)
    → ltb t.now (h.ts + t.timeout_seconds) ≡ false
    → judge_timed t name h p w agent ≡ judge_overdue t name h p w agent
unfolding judge_timed
judge_timed-eq t name h p w agent late = rw (late, judge_timed)

judge_overdue-Closes :
    (t : TickInput) (name : String) (h : Heartbeat) (p : Pane) (w next : World) (agent : Agent)
    → judge_overdue t name h p w agent ≡ some next
    → Closes name w next (
        (moved_on h (second_reading p name w) ≡ false)
        × ServersApart t p
        × (agent ≡ claude → claude_keep_alive_reason t name h p ≡ none))
judge_overdue-Closes t name h p w next codex e =
    Closes-map name w next (λ (m, a). (m, a, λ k. absurd (cc)))
      (judge_servers-Closes t name h p w next (sym (judge_overdue-eq_codex t name h p w) ∙ e))
judge_overdue-Closes t name h p w next claude e =
    elim (Option-cases (claude_keep_alive_reason t name h p)) [
      | inl k ↦
          Closes-map name w next (λ (m, a). (m, a, λ _. k))
            (judge_servers-Closes t name h p w next (sym (judge_overdue-eq t name h p w k) ∙ e))
      | inr (reason, k) ↦ inl (unfold judge_overdue in ground arith)
    ]

-- What is known when a session whose heartbeat was read is closed.
abbrev IdleCause : TickInput → String → Heartbeat → Pane → World → HeartbeatState → Agent → Type 0
IdleCause t name h p w state agent =
    (moved_on h (second_reading p name w) ≡ false)
    × ServersApart t p
    × (agent ≡ claude → (state ≡ idle) × (claude_keep_alive_reason t name h p ≡ none))
    × (h.ts + t.timeout_seconds ≤ t.now)

judge_timed-Closes :
    (t : TickInput) (name : String) (h : Heartbeat) (p : Pane) (w next : World) (agent : Agent)
    (state : HeartbeatState)
    → (agent ≡ claude → state ≡ idle)
    → judge_timed t name h p w agent ≡ some next
    → Closes name w next (IdleCause t name h p w state agent)
judge_timed-Closes t name h p w next agent state i e =
    elim (Bool-cases (ltb t.now (h.ts + t.timeout_seconds))) [
      | inl early ↦ inl (unfold judge_timed in ground arith)
      | inr late ↦
          Closes-map name w next (λ (m, a, k). (m, a, (λ c. (i c, k c)), ground arith))
            (judge_overdue-Closes t name h p w next agent
              (sym (judge_timed-eq t name h p w agent late) ∙ e))
    ]

judge_state-eq_codex :
    (t : TickInput) (name : String) (h : Heartbeat) (p : Pane) (w : World) (state : HeartbeatState)
    → judge_state t name h p w state codex ≡ judge_timed t name h p w codex
unfolding judge_state
judge_state-eq_codex t name h p w active = refl
judge_state-eq_codex t name h p w idle = refl

judge_state-eq_idle :
    (t : TickInput) (name : String) (h : Heartbeat) (p : Pane) (w : World)
    → judge_state t name h p w idle claude ≡ judge_timed t name h p w claude
unfolding judge_state
judge_state-eq_idle t name h p w = refl

pub judge_heartbeat-eq :
    (t : TickInput) (name : String) (h : Heartbeat) (p : Pane) (w : World)
    → p.attached ≡ false
    → judge_heartbeat t name p w (some h)
      ≡ judge_state t name h p w h.state (agent_of (Maps.get name t.metadata))
unfolding judge_heartbeat
judge_heartbeat-eq t name h p w de = rw (de, judge_heartbeat)

judge_state-Closes :
    (t : TickInput) (name : String) (h : Heartbeat) (p : Pane) (w next : World)
    (state : HeartbeatState) (agent : Agent)
    → judge_state t name h p w state agent ≡ some next
    → Closes name w next (IdleCause t name h p w state agent)
judge_state-Closes t name h p w next active claude e = inl (unfold judge_state in ground arith)
judge_state-Closes t name h p w next active codex e =
    judge_timed-Closes t name h p w next codex active (λ k. absurd (cc))
      (sym (judge_state-eq_codex t name h p w active) ∙ e)
judge_state-Closes t name h p w next idle codex e =
    judge_timed-Closes t name h p w next codex idle (λ k. refl)
      (sym (judge_state-eq_codex t name h p w idle) ∙ e)
judge_state-Closes t name h p w next idle claude e =
    judge_timed-Closes t name h p w next claude idle (λ k. refl)
      (sym (judge_state-eq_idle t name h p w) ∙ e)

pub judge_heartbeat-Closes :
    (t : TickInput) (name : String) (p : Pane) (w next : World) (read : Option Heartbeat)
    → read ≡ read_heartbeat w.heartbeats name
    → judge_heartbeat t name p w read ≡ some next
    → Closes name w next ((p.attached ≡ false) × IdleLapsed t name p w)
judge_heartbeat-Closes t name p w next none r e = inl (unfold judge_heartbeat in ground arith)
judge_heartbeat-Closes t name p w next (some h) r e = elim (Bool-cases p.attached) [
  | inl at ↦ inl (unfold judge_heartbeat in ground arith)
  | inr de ↦
      Closes-map name w next
        (λ (m, a, c, o). (
          de,
          record {
            heartbeat = h;
            read_first = sym r;
            overdue = o;
            not_working = NotWorking-of t name h p c;
            servers_apart = a;
            not_moved = moved_on-SameTime h (second_reading p name w) m;
          },
        ))
        (judge_state-Closes t name h p w next h.state (agent_of (Maps.get name t.metadata))
          (sym (judge_heartbeat-eq t name h p w de) ∙ e))
]
