-- ===== src/Reaper/Total.antt =====
-- When a sweep throws: exactly at a live session whose name `validateSessionName` refuses.
use tailii_host.Prelude.{
  ℕ, ◌≡◌, refl, ap, ◌∙◌, inl, inr, true, false, String, List, [], ◌∷◌, Option, none, some,
  string_eq, if◌then◌else◌, is_some, all, sym, ◌&&◌, arith, Bool-cases, Option-cases,
}
use tailii_host.Prelude.Maps
use tailii_host.Heartbeat.{
  keep, clear, HeartbeatState, active, idle, Heartbeat, HeartbeatWrite, valid_session_name,
}
use tailii_host.Heartbeat.Store.{HeartbeatDir, read_heartbeat, write_heartbeat, bump_heartbeat}
use tailii_host.LocalServers.{Server, LocalServerProcesses, Walk}
use tailii_host.Reaper.Tick.{sweep, reaper_tick, Listing, live_sessions, tmux_pane, herdr_pane}
use tailii_host.Reaper.{Backend, tmux, herdr, Agent, claude, codex, World, TickInput, Pane}
use tailii_host.Reaper.Judge.{
  claude_keep_alive_reason, bump, Verdict, done, go_on, judge_owned, judge_candidates,
  judge_servers, judge_overdue, judge_timed, agent_of, judge_state, judge_heartbeat, judge_prewarm,
  after_prewarm, judge, get_prewarm,
}

module _ (t : TickInput) (name : String) (p : Pane) (valid : valid_session_name name ≡ true) where
  write_total :
      (dir : HeartbeatDir) (w : HeartbeatWrite) → is_some (write_heartbeat dir name w) ≡ true
  unfolding write_heartbeat
  write_total dir w = rw valid

  bump_total :
      (dir : HeartbeatDir) (now : ℕ) (event : String) (s : HeartbeatState)
      → is_some (bump_heartbeat dir name now event s) ≡ true
  unfolding bump_heartbeat write_heartbeat
  bump_total dir now event s = rw valid

  bump_some :
      (w : World) (now : ℕ) (event : String) (s : HeartbeatState)
      → is_some (bump w name now event s) ≡ true
  bump_some w now event s = ground (arith, bump_total w.heartbeats now event s)

  owned_total :
      (h : Heartbeat) (w : World) (walks : List Walk)
      → is_some (judge_owned t name h p w walks) ≡ true
  unfolding judge_owned
  owned_total h w walks = ground (arith, bump_some w t.now "daemon-local-server" idle)

  candidates_total :
      (h : Heartbeat) (w : World) (ls : LocalServerProcesses) (ss : List Server)
      → is_some (judge_candidates t name h p w ls ss) ≡ true
  unfolding judge_candidates
  candidates_total h w ls ss = ground (arith, bump_some w t.now "daemon-local-server" idle)

  servers_total : (h : Heartbeat) (w : World) → is_some (judge_servers t name h p w) ≡ true
  unfolding judge_servers
  servers_total h w = ground (arith, bump_some w t.now "daemon-local-server" idle)

  overdue_total :
      (h : Heartbeat) (w : World) (a : Agent) → is_some (judge_overdue t name h p w a) ≡ true
  unfolding judge_overdue
  overdue_total h w codex = servers_total h w
  overdue_total h w claude = elim (Option-cases (claude_keep_alive_reason t name h p)) [
    | inl e ↦ rw (e, judge_overdue) (servers_total h w)
    | inr (r, e) ↦ rw (e, judge_overdue) (bump_some w t.now _ idle)
  ]

  timed_total :
      (h : Heartbeat) (w : World) (a : Agent) → is_some (judge_timed t name h p w a) ≡ true
  unfolding judge_timed
  timed_total h w a = ground (arith, overdue_total h w a)

  state_total :
      (h : Heartbeat) (w : World) (s : HeartbeatState) (a : Agent)
      → is_some (judge_state t name h p w s a) ≡ true
  unfolding judge_state
  state_total h w active claude = ground (
    arith,
    bump_some w t.now "daemon-agent-alive" active,
    write_total w.heartbeats (record {
      ts = t.now;
      state = idle;
      event = some "agent-process-dead";
      since_ms = none;
      scheduled = clear;
    }),
  )
  state_total h w active codex = timed_total h w codex
  state_total h w idle claude = timed_total h w claude
  state_total h w idle codex = timed_total h w codex

  heartbeat_total :
      (w : World) (o : Option Heartbeat) → is_some (judge_heartbeat t name p w o) ≡ true
  unfolding judge_heartbeat
  heartbeat_total w none = ground (
    arith,
    write_total w.heartbeats (record {
      ts = t.now;
      state = idle;
      event = some "adopted";
      since_ms = none;
      scheduled = keep;
    }),
  )
  heartbeat_total w (some h) = ground (
    arith,
    bump_some w t.now "daemon-client-attached" idle,
    state_total h w h.state (agent_of (Maps.get name t.metadata)),
  )

  after_total : (v : Verdict) → is_some (after_prewarm t name p v) ≡ true
  unfolding after_prewarm
  after_total (done w) = refl
  after_total (go_on w) = heartbeat_total w (read_heartbeat w.heartbeats name)

  judge_total : (w : World) → is_some (judge t name p w) ≡ true
  unfolding judge
  judge_total w = after_total _

module _ (t : TickInput) (name : String) (p : Pane)
    (refused : valid_session_name name ≡ false) where
  no_prewarm :
      (w : World) → (if t.has_prewarm_store then get_prewarm name w.prewarms else none) ≡ none
  unfolding get_prewarm
  no_prewarm w = ground arith

  no_heartbeat : (dir : HeartbeatDir) → read_heartbeat dir name ≡ none
  unfolding read_heartbeat
  no_heartbeat dir = rw refused

  adoption_throws : (w : World) → judge_heartbeat t name p w none ≡ none
  unfolding judge_heartbeat write_heartbeat
  adoption_throws w = rw refused

  prewarm_skipped : (w : World) → judge_prewarm t name p w none ≡ go_on w
  unfolding judge_prewarm
  prewarm_skipped w = refl

  after_throws : (w : World) → after_prewarm t name p (go_on w) ≡ none
  unfolding after_prewarm
  after_throws w = ap (judge_heartbeat t name p w) (no_heartbeat w.heartbeats) ∙ adoption_throws w

  -- Under a name that is refused the session is always taken for a new one, and its adoption throws.
  judge_throws : (w : World) → judge t name p w ≡ none
  unfolding judge
  judge_throws w =
      ap (λ o. after_prewarm t name p (judge_prewarm t name p w o)) (no_prewarm w)
      ∙ ap (after_prewarm t name p) (prewarm_skipped w)
      ∙ after_throws w

judge-is_some :
    (t : TickInput) (name : String) (p : Pane) (w : World)
    → is_some (judge t name p w) ≡ valid_session_name name
judge-is_some t name p w = elim (Bool-cases (valid_session_name name)) [
  | inl valid ↦ judge_total t name p valid w ∙ sym valid
  | inr refused ↦ ap is_some (judge_throws t name p refused w) ∙ sym refused
]

sweep-is_some :
    (t : TickInput) (pane : String → Pane) (names : List String) (w : World)
    → is_some (sweep t pane names w) ≡ all valid_session_name names
unfolding sweep
sweep-is_some t pane [] w = refl
sweep-is_some t pane (name ∷ names) w = elim (Option-cases (judge t name (pane name) w)) [
  | inl e ↦ rw (e, sweep) (ground (arith, judge-is_some t name (pane name) w))
  | inr (next, e) ↦
      rw (e, sweep)
        (ground (arith, judge-is_some t name (pane name) w, sweep-is_some t pane names next))
]

-- A tick runs to its end exactly if `validateSessionName` accepts the name of every live session
-- of both backends: one live session whose name it refuses makes the whole tick throw.
pub reaper_tick-is_some :
    (t : TickInput) (pane : Backend → String → Pane) (on_tmux on_herdr : Listing) (w : World)
    → is_some (reaper_tick t pane on_tmux on_herdr w)
      ≡ all valid_session_name (live_sessions on_tmux)
        && all valid_session_name (live_sessions on_herdr)
unfolding reaper_tick
reaper_tick-is_some t pane on_tmux on_herdr w =
    elim (Option-cases (sweep t on_t (live_sessions on_tmux) w)) [
      | inl e ↦ rw (e, reaper_tick) (ground (arith, sweep-is_some t on_t (live_sessions on_tmux) w))
      | inr (w1, e) ↦ elim (Option-cases (sweep t on_h (live_sessions on_herdr) w1)) [
        | inl f ↦
            rw (e, f, reaper_tick)
              (ground (
                arith,
                sweep-is_some t on_t (live_sessions on_tmux) w,
                sweep-is_some t on_h (live_sessions on_herdr) w1,
              ))
        | inr (w2, f) ↦
            rw (e, f, reaper_tick)
              (ground (
                arith,
                sweep-is_some t on_t (live_sessions on_tmux) w,
                sweep-is_some t on_h (live_sessions on_herdr) w1,
              ))
      ]
    ]
  where
    on_t : String → Pane
    on_t name = tmux_pane (pane tmux name)

    on_h : String → Pane
    on_h name = herdr_pane (pane herdr name)
