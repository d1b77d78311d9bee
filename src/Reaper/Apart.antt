-- ===== src/Reaper/Apart.antt =====
-- That no listening server belongs to a session, told of all servers and not of the candidates.
use tailii_host.Prelude.{
  ℕ, ◌≡◌, ◌⊎◌, inl, inr, true, List, [], some, ◌==◌, nat_eq, string_eq, length, eq_nil, All-map,
  All-filter, filter-nil, ◌↔◌, All, arith,
}
use tailii_host.LocalServers.{
  Server, LocalServerProcesses, is_agent_listener, apart, process_belongs_to_pane,
}
use tailii_host.Reaper.{TickInput, Pane}
use tailii_host.Reaper.Judge.{candidate_servers}

-- The parents and the pane's pids are known, and each candidate is apart from the pane.
pub record CandidatesApart (p : Pane) (ls : LocalServerProcesses) (candidates : List Server)
    : Type 0 where
  pub parents : List (ℕ × ℕ)
  pub roots : List ℕ
  pub parents_known : ls.parents ≡ some parents
  pub roots_known : p.pane_process_ids ≡ some roots
  pub apart_from_pane :
      All
        (λ (s : Server). process_belongs_to_pane s.pid roots parents ls.terminals ≡ apart)
        candidates

-- The servers that listen are known, and they are all agents' own, or else the parents and the
-- pane's pids are known, and each server is an agent's own or apart from the pane.
pub data ServersApart (t : TickInput) (p : Pane) : Type 0 where
  agents_only :
      (ls : LocalServerProcesses)
      → t.local_servers ≡ some ls
      → All (λ (s : Server). is_agent_listener s.command ≡ true) ls.servers
      → ServersApart t p
  all_apart :
      (ls : LocalServerProcesses) (parents : List (ℕ × ℕ)) (roots : List ℕ)
      → t.local_servers ≡ some ls
      → ls.parents ≡ some parents
      → p.pane_process_ids ≡ some roots
      → All
          (λ (s : Server).
            (is_agent_listener s.command ≡ true)
            ⊎ (process_belongs_to_pane s.pid roots parents ls.terminals ≡ apart))
          ls.servers
      → ServersApart t p

-- No server listens but agents' own.
pub candidate_servers-nil :
    (ls : LocalServerProcesses)
    → (candidate_servers ls ≡ [])
      ↔ All (λ (s : Server). is_agent_listener s.command ≡ true) ls.servers
candidate_servers-nil ls = (
  λ e. All-map (λ s q. ground arith) ls.servers ((filter-nil _ ls.servers).0 e),
  λ h. (filter-nil _ ls.servers).1 (All-map (λ s q. ground arith) ls.servers h),
)

pub agents_only_of :
    (t : TickInput) (p : Pane) (ls : LocalServerProcesses)
    → t.local_servers ≡ some ls
    → (length (candidate_servers ls) == 0) ≡ true
    → ServersApart t p
agents_only_of t p ls a z =
    agents_only ls a ((candidate_servers-nil ls).0 (eq_nil (candidate_servers ls) (ground arith)))

pub all_apart_of :
    (t : TickInput) (p : Pane) (ls : LocalServerProcesses)
    → t.local_servers ≡ some ls
    → CandidatesApart p ls (candidate_servers ls)
    → ServersApart t p
all_apart_of t p ls a c = all_apart ls c.parents c.roots a c.parents_known c.roots_known (
    All-map (λ s h. elim h [ inl own ↦ inl (ground arith) | inr away ↦ inr away ]) ls.servers
      (All-filter _
        (λ (s : Server). process_belongs_to_pane s.pid c.roots c.parents ls.terminals ≡ apart)
        ls.servers c.apart_from_pane))
