-- ===== src/Reaper/Frame.antt =====
-- A judgement reads and writes the heartbeat of its own session only.
use tailii_host.Prelude.{
  ◌≡◌, refl, ap, sym, ◌∙◌, inl, inr, false, String, List, [], ◌∷◌, ◌++◌, Option, none, some, ◌==◌,
  nat_eq, string_eq, if◌then◌else◌, arith, Bool-cases,
}
use tailii_host.Prelude.Maps
use tailii_host.Heartbeat.{HeartbeatState, active, idle, Heartbeat, HeartbeatWrite, clear, keep}
use tailii_host.Heartbeat.Store.{HeartbeatDir, read_heartbeat, write_heartbeat, bump_heartbeat}
use tailii_host.Heartbeat.Laws.{read-write, read-bump, read-remove}
use tailii_host.LocalServers.{Server, LocalServerProcesses}
use tailii_host.Reaper.{Agent, claude, codex, World, TickInput, Pane, PrewarmRecord}
use tailii_host.Reaper.Judge.{
  bump, with_heartbeats, recheck_and_close, judge_candidates, judge_servers, judge_overdue,
  judge_timed, agent_of, judge_state, judge_heartbeat, judge_prewarm, Verdict, done, go_on,
  after_prewarm, judge, get_prewarm, demote,
}

-- The world that the part on prewarms leaves.
abbrev world_of : Verdict → World
world_of (done w) = w
world_of (go_on w) = w

module _ (t : TickInput) (name other : String) (p : Pane) (apart : (name == other) ≡ false) where
  with_heartbeats-Kept :
      (w w0 next : World) (dir : Option HeartbeatDir)
      → ((d : HeartbeatDir)
          → dir ≡ some d
          → read_heartbeat d other ≡ read_heartbeat w.heartbeats other)
      → with_heartbeats w0 dir ≡ some next
      → read_heartbeat next.heartbeats other ≡ read_heartbeat w.heartbeats other
  with_heartbeats-Kept w w0 next none k e = absurd (cc)
  with_heartbeats-Kept w w0 next (some d) k e = ground (arith, k d refl)

  bump-Kept :
      (w next : World) (event : String) (s : HeartbeatState)
      → bump w name t.now event s ≡ some next
      → read_heartbeat next.heartbeats other ≡ read_heartbeat w.heartbeats other
  bump-Kept w next event s e =
      with_heartbeats-Kept w w next (bump_heartbeat w.heartbeats name t.now event s)
        (λ d f. ground (arith, read-bump w.heartbeats name other t.now event s d f)) e

  write-Kept :
      (w w0 next : World) (write : HeartbeatWrite)
      → with_heartbeats w0 (write_heartbeat w.heartbeats name write) ≡ some next
      → read_heartbeat next.heartbeats other ≡ read_heartbeat w.heartbeats other
  write-Kept w w0 next write e =
      with_heartbeats-Kept w w0 next (write_heartbeat w.heartbeats name write)
        (λ d f. ground (arith, read-write w.heartbeats name other write d f)) e

  module _ (w : World)
      (still : read_heartbeat (p.meanwhile_heartbeats w.heartbeats) other
        ≡ read_heartbeat w.heartbeats other) where
    close-Kept :
        (h : Heartbeat) (w0 : World)
        → read_heartbeat w0.heartbeats other ≡ read_heartbeat w.heartbeats other
        → read_heartbeat (recheck_and_close name h w0).heartbeats other
          ≡ read_heartbeat w.heartbeats other
    unfolding recheck_and_close
    close-Kept h w0 k = ground (arith, read-remove w0.heartbeats name other)

    candidates-Kept :
        (h : Heartbeat) (next : World) (ls : LocalServerProcesses) (candidates : List Server)
        → judge_candidates t name h p w ls candidates ≡ some next
        → read_heartbeat next.heartbeats other ≡ read_heartbeat w.heartbeats other
    unfolding judge_candidates
    candidates-Kept h next ls candidates e = grind (
      arith,
      bump-Kept w next "daemon-local-server" idle,
      close-Kept h (record w { heartbeats = p.meanwhile_heartbeats w.heartbeats }) still,
    )

    servers-Kept :
        (h : Heartbeat) (next : World)
        → judge_servers t name h p w ≡ some next
        → read_heartbeat next.heartbeats other ≡ read_heartbeat w.heartbeats other
    unfolding judge_servers
    servers-Kept h next e = grind (
      arith,
      candidates-Kept h next,
      close-Kept h (record w { heartbeats = p.meanwhile_heartbeats w.heartbeats }) still,
    )

    timed-Kept :
        (h : Heartbeat) (next : World) (agent : Agent)
        → judge_timed t name h p w agent ≡ some next
        → read_heartbeat next.heartbeats other ≡ read_heartbeat w.heartbeats other
    unfolding judge_timed judge_overdue
    timed-Kept h next claude e = grind (arith, servers-Kept h next, bump-Kept w next)
    timed-Kept h next codex e = ground (arith, servers-Kept h next)

    state-Kept :
        (h : Heartbeat) (next : World) (s : HeartbeatState) (agent : Agent)
        → judge_state t name h p w s agent ≡ some next
        → read_heartbeat next.heartbeats other ≡ read_heartbeat w.heartbeats other
    unfolding judge_state
    state-Kept h next idle claude e = timed-Kept h next claude e
    state-Kept h next idle codex e = timed-Kept h next codex e
    state-Kept h next active codex e = timed-Kept h next codex e
    state-Kept h next active claude e = elim (Bool-cases p.agent_alive) [
      | inl alive ↦ bump-Kept w next "daemon-agent-alive" active (ground arith)
      | inr dead ↦
          write-Kept w (record w { demoted = w.demoted ++ name ∷ [] }) next
            (record {
              ts = t.now;
              state = idle;
              event = some "agent-process-dead";
              since_ms = none;
              scheduled = clear;
            })
            (sym (demoted dead) ∙ e)
    ]
      where
        demoted : p.agent_alive ≡ false → judge_state t name h p w active claude ≡ demote t name w
        demoted dead = rw dead

    heartbeat-Kept :
        (next : World) (read : Option Heartbeat)
        → judge_heartbeat t name p w read ≡ some next
        → read_heartbeat next.heartbeats other ≡ read_heartbeat w.heartbeats other
    unfolding judge_heartbeat
    heartbeat-Kept next none e =
        write-Kept w w next
          (record {
            ts = t.now;
            state = idle;
            event = some "adopted";
            since_ms = none;
            scheduled = keep;
          })
          e
    heartbeat-Kept next (some h) e = ground (
      arith,
      bump-Kept w next "daemon-client-attached" idle,
      state-Kept h next h.state (agent_of (Maps.get name t.metadata)),
    )

-- The part on prewarms writes no heartbeat but to remove the session's own.
prewarm-Kept :
    (t : TickInput) (name other : String) (p : Pane)
    → (name == other) ≡ false
    → (w : World) (read : Option PrewarmRecord) (v : Verdict) → judge_prewarm t name p w read ≡ v
    → read_heartbeat (world_of v).heartbeats other ≡ read_heartbeat w.heartbeats other
unfolding judge_prewarm
prewarm-Kept t name other p apart w none v e = ground arith
prewarm-Kept t name other p apart w (some r) v e =
    ground (arith, read-remove w.heartbeats name other)

prewarm_goes_on :
    (t : TickInput) (name : String) (p : Pane) (w w1 : World) (read : Option PrewarmRecord)
    → judge_prewarm t name p w read ≡ go_on w1
    → w1.heartbeats ≡ w.heartbeats
unfolding judge_prewarm
prewarm_goes_on t name p w w1 none e = ground arith
prewarm_goes_on t name p w w1 (some r) e = ground arith

after_prewarm-Kept :
    (t : TickInput) (name other : String) (p : Pane) (w next : World) (read : Option PrewarmRecord)
    (v : Verdict)
    → (name == other) ≡ false
    → read_heartbeat (p.meanwhile_heartbeats w.heartbeats) other ≡ read_heartbeat w.heartbeats other
    → judge_prewarm t name p w read ≡ v
    → after_prewarm t name p v ≡ some next
    → read_heartbeat next.heartbeats other ≡ read_heartbeat w.heartbeats other
unfolding after_prewarm
after_prewarm-Kept t name other p w next read (done w1) apart still v e =
    ground (arith, prewarm-Kept t name other p apart w read (done w1) v)
after_prewarm-Kept t name other p w next read (go_on w1) apart still v e =
    let same : w1.heartbeats ≡ w.heartbeats = prewarm_goes_on t name p w w1 read v in
    let here : read_heartbeat (p.meanwhile_heartbeats w1.heartbeats) other
        ≡ read_heartbeat w1.heartbeats other =
      rw same still in
    heartbeat-Kept t name other p apart w1 here next (read_heartbeat w1.heartbeats name) e
    ∙ ap (λ dir. read_heartbeat dir other) same

-- What is read of any other session's heartbeat is the same after a judgement as before it, if the
-- other processes did not change it meanwhile.
pub judge-frame :
    (t : TickInput) (name other : String) (p : Pane) (w next : World)
    → (name == other) ≡ false
    → read_heartbeat (p.meanwhile_heartbeats w.heartbeats) other ≡ read_heartbeat w.heartbeats other
    → judge t name p w ≡ some next
    → read_heartbeat next.heartbeats other ≡ read_heartbeat w.heartbeats other
unfolding judge
judge-frame t name other p w next apart still e =
    after_prewarm-Kept t name other p w next
      (if t.has_prewarm_store then get_prewarm name w.prewarms else none) _ apart still refl e
