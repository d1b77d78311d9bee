-- ===== src/LocalServers.antt =====
-- src/hub/localServerProcesses.ts: which processes listen, and whether one belongs to a pane.
-- The tables that `ps` and `lsof` give are association lists (`Map`). Pids are natural numbers.
pub mod Ancestry
use mathlib.Core.List.{reverse}
use tailii_host.Prelude.{
  map, leb, ◌+◌, ℕ, zero, suc, Bool, true, false, String, List, [], ◌∷◌, Option, none, some, ◌==◌,
  nat_eq, string_eq, if◌then◌else◌, ◌&&◌, ◌||◌, not, any, all, length, map,
}
use tailii_host.Prelude.Maps
use tailii_host.Prelude.Text.{codes, has_name}

pub record Server : Type 0 where
  pub pid : ℕ
  pub command : String

pub record LocalServerProcesses : Type 0 where
  pub servers : List Server
  -- `none`: `ps` failed.
  pub parents : Option (List (ℕ × ℕ))
  -- `none`: `terminals` is missing.
  pub terminals : Option (List (ℕ × String))

drop_slashes : List ℕ → List ℕ
drop_slashes [] = []
drop_slashes (c ∷ cs) = let rest = drop_slashes cs in if c == b'/' then rest else c ∷ cs

until_slash : List ℕ → List ℕ
until_slash [] = []
until_slash (c ∷ cs) = let rest = until_slash cs in if c == b'/' then [] else c ∷ rest

-- `path.basename(path)`: the part after the last slash, but for slashes at the end.
basename : List ℕ → List ℕ
unfolding drop_slashes until_slash
basename path = reverse (until_slash (drop_slashes (reverse path)))

-- `toLowerCase`, on the letters that can make one of the names below.
unfoldable pub to_lower : ℕ → ℕ
to_lower c = if leb b'A' c && leb c b'Z' then c + 32 else c

unfoldable pub same_codes : List ℕ → List ℕ → Bool
same_codes [] [] = true
same_codes (a ∷ as_) (b ∷ bs) = a == b && same_codes as_ bs
same_codes _ _ = false

-- `isAgentListener`: the listener of an agent's own command line, which protects no session.
unfoldable pub is_agent_listener : String → Bool
unfolding basename to_lower same_codes
is_agent_listener command =
    any (λ name. same_codes (codes name) (map to_lower (basename (codes command))))
      ("codex" ∷ "claude" ∷ "tailii" ∷ "tailii-host" ∷ [])

-- `list.includes(pid)`, `set.has(pid)`.
abbrev pub has_pid : ℕ → List ℕ → Bool
has_pid pid [] = false
has_pid pid (p ∷ pids) = p == pid || has_pid pid pids

-- `/^(?:\?+|-)$/.test(terminal)`: no controlling terminal.
no_terminal : String → Bool
no_terminal terminal =
    (not (terminal == "") && all (λ c. c == b'?') (codes terminal)) || terminal == "-"

-- `terminals?.get(pid)`.
terminal_of : Option (List (ℕ × String)) → ℕ → Option String
terminal_of none pid = none
terminal_of (some table) pid = Maps.get pid table

same_terminal : Option String → Option String → Bool
same_terminal (some t) (some u) = u == t
same_terminal _ _ = false

is_real_terminal : Option String → Bool
is_real_terminal none = false
is_real_terminal (some t) = not (no_terminal t)

-- The first test of `processBelongsToPane`: a root has the same controlling terminal.
unfoldable pub shares_terminal : ℕ → List ℕ → Option (List (ℕ × String)) → Bool
unfolding terminal_of same_terminal is_real_terminal no_terminal
shares_terminal pid roots terminals =
    is_real_terminal (terminal_of terminals pid)
    && any (λ root. same_terminal (terminal_of terminals pid) (terminal_of terminals root)) roots

-- How the walk up the parents ends: with an answer, `null`, or out of fuel.
pub data Walk : Type 0 where
  belongs apart unknown out_of_fuel : Walk

-- The loop of `processBelongsToPane`, in the order of its tests.
pub walk_parents : ℕ → ℕ → List ℕ → List (ℕ × ℕ) → List ℕ → Walk
walk_parents zero pid roots parents visited = out_of_fuel
walk_parents (suc fuel) pid roots parents visited = elim (pid == 0) [
  | true ↦ apart
  | false ↦ elim (has_pid pid roots) [
    | true ↦ belongs
    | false ↦ elim (pid == 1) [
      | true ↦ apart
      | false ↦ elim (has_pid pid visited) [
        | true ↦ unknown
        | false ↦ elim (Maps.get pid parents) [
          | none ↦ unknown
          | some parent ↦ walk_parents fuel parent roots parents (pid ∷ visited)
        ]
      ]
    ]
  ]
]

-- One round for each entry of the table, and two more.
unfoldable pub process_belongs_to_pane :
    ℕ → List ℕ → List (ℕ × ℕ) → Option (List (ℕ × String)) → Walk
unfolding walk_parents shares_terminal
process_belongs_to_pane pid roots parents terminals =
    if shares_terminal pid roots terminals
    then belongs
    else walk_parents (suc (suc (length parents))) pid roots parents []
