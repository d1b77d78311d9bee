-- ===== src/Reaper/Keeping.antt =====
-- What the sweep does to sessions that must live, and to those that nothing holds back.
use tailii_host.Reaper.Closing.{NotWorking, IsCodex-agent_of, judge_heartbeat-eq}
use tailii_host.Reaper.Kept.{claude_keep_alive_reason-NotKept}
use tailii_host.Reaper.Apart.{candidate_servers-nil}
use tailii_host.Heartbeat.Laws.{read-remove}
use tailii_host.Reaper.Safety.{judge-closes_with_cause}
use tailii_host.Prelude.{
  refl, ==_iff, ◌⊎◌, inl, inr, ◌<◌, ◌+◌, ◌≤◌, ◌≡◌, sym, ap, ◌∙◌, false, true, Bool-cases, All, ◌==◌,
  ◌++◌, ◌∷◌, String, [], none, some, nat_eq, string_eq, arith,
}
use tailii_host.Prelude.Maps
use tailii_host.Heartbeat.{Heartbeat}
use tailii_host.Heartbeat.Store.{read_heartbeat}
use tailii_host.LocalServers.{Server, LocalServerProcesses, is_agent_listener}
use tailii_host.Reaper.{World, TickInput, Pane}
use tailii_host.Reaper.Judge.{
  close_session, candidate_servers, moved_on, recheck_and_close, judge_servers, judge_overdue,
  judge_timed, agent_of, judge_state, judge_heartbeat, judge_prewarm, after_prewarm, judge,
  get_prewarm,
}

-- Without a prewarm the judgement starts at the heartbeat.
judge-eq :
    (t : TickInput) (name : String) (p : Pane) (w : World)
    → get_prewarm name w.prewarms ≡ none
    → judge t name p w ≡ judge_heartbeat t name p w (read_heartbeat w.heartbeats name)
unfolding judge after_prewarm judge_prewarm
judge-eq t name p w none_there = ground arith

close_when_same :
    (name : String) (h : Heartbeat) (w : World)
    → read_heartbeat w.heartbeats name ≡ some h
    → recheck_and_close name h w ≡ close_session name w
unfolding recheck_and_close moved_on
close_when_same name h w e = ground (arith, ==_iff h.ts h.ts)

judge_servers-close :
    (t : TickInput) (name : String) (h : Heartbeat) (p : Pane) (w : World)
    (ls : LocalServerProcesses)
    → t.local_servers ≡ some ls
    → candidate_servers ls ≡ []
    → p.meanwhile_heartbeats w.heartbeats ≡ w.heartbeats
    → read_heartbeat w.heartbeats name ≡ some h
    → judge_servers t name h p w ≡ some (close_session name w)
unfolding judge_servers
judge_servers-close t name h p w ls a z m e =
    rw (a, z, m, judge_servers) (ap some (close_when_same name h w e))

judge_state-close :
    (t : TickInput) (name : String) (h : Heartbeat) (p : Pane) (w : World)
    → NotWorking t name h p
    → h.ts + t.timeout_seconds ≤ t.now
    → judge_state t name h p w h.state (agent_of (Maps.get name t.metadata))
      ≡ judge_servers t name h p w
unfolding judge_state judge_timed judge_overdue
judge_state-close t name h p w free late = elim free [
  | inl c ↦ let codex_there = IsCodex-agent_of (Maps.get name t.metadata) c in ground arith
  | inr (i, k) ↦ let no_reason = (claude_keep_alive_reason-NotKept t name h p).1 k in ground arith
]

judge-closes :
    (t : TickInput) (name : String) (h : Heartbeat) (p : Pane) (w : World)
    (ls : LocalServerProcesses)
    → get_prewarm name w.prewarms ≡ none
    → read_heartbeat w.heartbeats name ≡ some h
    → p.attached ≡ false
    → NotWorking t name h p
    → h.ts + t.timeout_seconds ≤ t.now
    → t.local_servers ≡ some ls
    → candidate_servers ls ≡ []
    → p.meanwhile_heartbeats w.heartbeats ≡ w.heartbeats
    → judge t name p w ≡ some (close_session name w)
judge-closes t name h p w ls fresh e de free late a z m =
    judge-eq t name p w fresh
    ∙ ap (judge_heartbeat t name p w) e
    ∙ judge_heartbeat-eq t name h p w de
    ∙ judge_state-close t name h p w free late
    ∙ judge_servers-close t name h p w ls a z m e

-- What closing a session changes: the backend is told to close it and nothing else, the tick
-- reports it, and of the heartbeats its own is gone and each other reads as before.
pub record ClosedFrom (w : World) (name other : String) (next : World) : Type 0 where
  pub told : next.kills ≡ w.kills ++ name ∷ []
  pub reported : next.killed ≡ w.killed ++ name ∷ []
  pub heartbeat_gone : read_heartbeat next.heartbeats name ≡ none
  pub others_kept :
      (name ≡ other) ⊎ (read_heartbeat next.heartbeats other ≡ read_heartbeat w.heartbeats other)

close_session-ClosedFrom :
    (w : World) (name other : String) → ClosedFrom w name other (close_session name w)
close_session-ClosedFrom w name other = record {
  told = refl;
  reported = refl;
  heartbeat_gone = ground (arith, read-remove w.heartbeats name name, ==_iff name name);
  others_kept = elim (Bool-cases (name == other)) [
    | inl same ↦ inl ((==_iff name other).0 same)
    | inr apart ↦ inr (ground (arith, read-remove w.heartbeats name other))
  ];
}

-- One sweep closes a session without prewarm whose heartbeat is at least the timeout old: it tells
-- the backend so, reports it, and leaves no heartbeat of it and every other heartbeat as it reads.
-- The conditions: no terminal is attached; its metadata name Codex, or its heartbeat is idle, no
-- status file that counts for it reports work that began less than 24 hours ago and less than five
-- minutes ahead, and it has no reservation left whose owner is there; the listening servers are
-- known and all agents' own; and no one writes a heartbeat meanwhile.
pub judge-closes_idle :
    (t : TickInput) (name other : String) (h : Heartbeat) (p : Pane) (w : World)
    (ls : LocalServerProcesses)
    → get_prewarm name w.prewarms ≡ none
    → read_heartbeat w.heartbeats name ≡ some h
    → p.attached ≡ false
    → NotWorking t name h p
    → h.ts + t.timeout_seconds ≤ t.now
    → t.local_servers ≡ some ls
    → All (λ (s : Server). is_agent_listener s.command ≡ true) ls.servers
    → p.meanwhile_heartbeats w.heartbeats ≡ w.heartbeats
    → (next : World) × (judge t name p w ≡ some next) × ClosedFrom w name other next
judge-closes_idle t name other h p w ls fresh e de free late a own m = (
  close_session name w,
  judge-closes t name h p w ls fresh e de free late a ((candidate_servers-nil ls).1 own) m,
  close_session-ClosedFrom w name other,
)

-- A session without prewarm whose heartbeat is younger than the timeout is never closed, whatever
-- else is observed.
pub judge-spares_recent :
    (t : TickInput) (name : String) (h : Heartbeat) (p : Pane) (w next : World)
    → get_prewarm name w.prewarms ≡ none
    → read_heartbeat w.heartbeats name ≡ some h
    → t.now < h.ts + t.timeout_seconds
    → judge t name p w ≡ some next
    → next.kills ≡ w.kills
judge-spares_recent t name h p w next fresh e recent j =
    elim (judge-closes_with_cause t name p w next j) [
      | inl same ↦ same
      | inr (closed, (de, inl lapsed)) ↦ absurd (cc (fresh, lapsed.read_first))
      | inr (closed, (de, inr cause)) ↦
          let again : some cause.heartbeat ≡ some h = sym cause.read_first ∙ e in
          absurd (ground (arith, again, cause.overdue))
    ]
