-- ===== src/Reaper/Servers.antt =====
-- The tests on local servers at the end of `judge`: a session is closed only if none belongs to it.
use tailii_host.Prelude.{
  ℕ, ◌≡◌, refl, sym, ◌∙◌, ◌≢◌, ◌⊎◌, inl, inr, true, false, String, List, [], ◌∷◌, ◌++◌, Option,
  none, some, ◌==◌, nat_eq, string_eq, length, any, map, All, arith, Bool-cases,
}
use tailii_host.Heartbeat.{HeartbeatState, Heartbeat}
use tailii_host.Heartbeat.Store.{HeartbeatDir, read_heartbeat}
use tailii_host.LocalServers.{
  Server, LocalServerProcesses, Walk, belongs, apart, unknown, out_of_fuel, process_belongs_to_pane,
}
use tailii_host.LocalServers.Ancestry.{process_belongs_to_pane_correct}
use tailii_host.Reaper.{World, TickInput, Pane}
use tailii_host.Reaper.Apart.{CandidatesApart, ServersApart, agents_only_of, all_apart_of}
use tailii_host.Reaper.Judge.{
  bump, is_belongs, is_unknown, moved_on, recheck_and_close, judge_owned, judge_candidates,
  candidate_servers, judge_servers,
}

walk_cases : (w : Walk) → w ≢ out_of_fuel → is_belongs w ≡ false → is_unknown w ≡ false → w ≡ apart
unfolding is_belongs is_unknown
walk_cases belongs n a b = absurd (cc)
walk_cases apart n a b = refl
walk_cases unknown n a b = absurd (cc)
walk_cases out_of_fuel n a b = absurd (n refl)

apart_of_none :
    (ls : LocalServerProcesses) (parents : List (ℕ × ℕ)) (roots : List ℕ) (ss : List Server)
    → any is_belongs
        (map (λ (s : Server). process_belongs_to_pane s.pid roots parents ls.terminals) ss)
      ≡ false
    → any is_unknown
        (map (λ (s : Server). process_belongs_to_pane s.pid roots parents ls.terminals) ss)
      ≡ false
    → All (λ (s : Server). process_belongs_to_pane s.pid roots parents ls.terminals ≡ apart) ss
apart_of_none ls parents roots [] a b = tt
apart_of_none ls parents roots (s ∷ ss) a b = (
  walk_cases (process_belongs_to_pane s.pid roots parents ls.terminals)
      (process_belongs_to_pane_correct s.pid roots parents ls.terminals).0 (ground arith)
      (ground arith),
  apart_of_none ls parents roots ss (ground arith) (ground arith),
)

-- A step leaves the list of closed sessions alone, or closes this one for the reason `R`.
abbrev pub Closes : String → World → World → Type 0 → Type 0
Closes name w next R = (next.kills ≡ w.kills) ⊎ ((next.kills ≡ w.kills ++ name ∷ []) × R)

pub bump-keeps :
    (w next : World) (name event : String) (now : ℕ) (s : HeartbeatState)
    → bump w name now event s ≡ some next
    → next.kills ≡ w.kills
bump-keeps w next name event now s h = ground arith

recheck_and_close-Closes :
    (name : String) (h : Heartbeat) (w : World) (dir : HeartbeatDir)
    → Closes name w
        (recheck_and_close name h (record w { heartbeats = dir }))
        (moved_on h (read_heartbeat dir name) ≡ false)
unfolding recheck_and_close
recheck_and_close-Closes name h w dir = elim (Bool-cases (moved_on h (read_heartbeat dir name))) [
  | inl e ↦ rw e (inl refl)
  | inr e ↦ rw e (inr (refl, refl))
]

-- The two readings of the heartbeat directory in one judgement.
abbrev pub second_reading : Pane → String → World → Option Heartbeat
second_reading p name w = read_heartbeat (p.meanwhile_heartbeats w.heartbeats) name

judge_owned-Closes :
    (t : TickInput) (name : String) (h : Heartbeat) (p : Pane) (w next : World) (walks : List Walk)
    → judge_owned t name h p w walks ≡ some next
    → Closes name w next (
        (moved_on h (second_reading p name w) ≡ false)
        × (any is_belongs walks ≡ false)
        × (any is_unknown walks ≡ false))
unfolding judge_owned
judge_owned-Closes t name h p w next walks e = ground arith

judge_candidates-eq :
    (t : TickInput) (name : String) (h : Heartbeat) (p : Pane) (w : World)
    (ls : LocalServerProcesses) (candidates : List Server) (parents : List (ℕ × ℕ)) (roots : List ℕ)
    → ls.parents ≡ some parents
    → p.pane_process_ids ≡ some roots
    → (length roots == 0) ≡ false
    → judge_candidates t name h p w ls candidates
      ≡ judge_owned t name h p w (
          map (λ (s : Server). process_belongs_to_pane s.pid roots parents ls.terminals) candidates)
unfolding judge_candidates
judge_candidates-eq t name h p w ls candidates parents roots a b z = rw (a, b, z, judge_candidates)

judge_candidates-Closes :
    (t : TickInput) (name : String) (h : Heartbeat) (p : Pane) (w next : World)
    (ls : LocalServerProcesses) (candidates : List Server)
    → judge_candidates t name h p w ls candidates ≡ some next
    → Closes name w next
        ((moved_on h (second_reading p name w) ≡ false) × CandidatesApart p ls candidates)
judge_candidates-Closes t name h p w next ls candidates e =
    go ls.parents p.pane_process_ids refl refl
  where
    go :
        (ps : Option (List (ℕ × ℕ))) (rs : Option (List ℕ))
        → ls.parents ≡ ps
        → p.pane_process_ids ≡ rs
        → Closes name w next
            ((moved_on h (second_reading p name w) ≡ false) × CandidatesApart p ls candidates)
    go none rs a b = inl (unfold judge_candidates in ground arith)
    go (some parents) none a b = inl (unfold judge_candidates in ground arith)
    go (some parents) (some roots) a b = elim (Bool-cases (length roots == 0)) [
      | inl z ↦ inl (unfold judge_candidates in ground arith)
      | inr z ↦
          elim (judge_owned-Closes t name h p w next
            (map (λ (s : Server). process_belongs_to_pane s.pid roots parents ls.terminals)
              candidates)
            (sym (judge_candidates-eq t name h p w ls candidates parents roots a b z) ∙ e)) [
              | inl k ↦ inl k
              | inr (k, (m, x, y)) ↦ inr (
                k,
                (
                  m,
                  record {
                    parents = parents;
                    roots = roots;
                    parents_known = a;
                    roots_known = b;
                    apart_from_pane = apart_of_none ls parents roots candidates x y;
                  },
                ),
              )
            ]
    ]

judge_servers-eq_close :
    (t : TickInput) (name : String) (h : Heartbeat) (p : Pane) (w : World)
    (ls : LocalServerProcesses)
    → t.local_servers ≡ some ls
    → (length (candidate_servers ls) == 0) ≡ true
    → judge_servers t name h p w
      ≡ some
          (recheck_and_close name h (record w { heartbeats = p.meanwhile_heartbeats w.heartbeats }))
unfolding judge_servers
judge_servers-eq_close t name h p w ls a z = rw (a, z, judge_servers)

judge_servers-eq_candidates :
    (t : TickInput) (name : String) (h : Heartbeat) (p : Pane) (w : World)
    (ls : LocalServerProcesses)
    → t.local_servers ≡ some ls
    → (length (candidate_servers ls) == 0) ≡ false
    → judge_servers t name h p w ≡ judge_candidates t name h p w ls (candidate_servers ls)
unfolding judge_servers
judge_servers-eq_candidates t name h p w ls a z = rw (a, z, judge_servers)

-- A statement about the world that a step gives.
pub Closes-of_eq :
    (name : String) (w made next : World) (R : Type 0)
    → some made ≡ some next
    → Closes name w made R
    → Closes name w next R
Closes-of_eq name w made next R e (inl k) = inl (ground arith)
Closes-of_eq name w made next R e (inr (k, r)) = inr (ground arith, r)

pub Closes-map :
    (name : String) (w next : World) {R S : Type 0}
    → (R → S)
    → Closes name w next R
    → Closes name w next S
Closes-map name w next f (inl k) = inl k
Closes-map name w next f (inr (k, r)) = inr (k, f r)

pub judge_servers-Closes :
    (t : TickInput) (name : String) (h : Heartbeat) (p : Pane) (w next : World)
    → judge_servers t name h p w ≡ some next
    → Closes name w next ((moved_on h (second_reading p name w) ≡ false) × ServersApart t p)
judge_servers-Closes t name h p w next e = go t.local_servers refl
  where
    go :
        (s : Option LocalServerProcesses)
        → t.local_servers ≡ s
        → Closes name w next ((moved_on h (second_reading p name w) ≡ false) × ServersApart t p)
    go none a = inl (unfold judge_servers in ground arith)
    go (some ls) a = elim (Bool-cases (length (candidate_servers ls) == 0)) [
      | inl z ↦
          Closes-map name w next (λ m. (m, agents_only_of t p ls a z))
            (Closes-of_eq name w _ next _ (sym (judge_servers-eq_close t name h p w ls a z) ∙ e)
              (recheck_and_close-Closes name h w (p.meanwhile_heartbeats w.heartbeats)))
      | inr z ↦
          Closes-map name w next (λ (m, x). (m, all_apart_of t p ls a x))
            (judge_candidates-Closes t name h p w next ls (candidate_servers ls)
              (sym (judge_servers-eq_candidates t name h p w ls a z) ∙ e))
    ]
