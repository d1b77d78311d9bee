-- ===== src/Reaper/Tick.antt =====
-- `reaperTick`: one sweep over the live sessions of both backends, then the leftovers.
-- The renaming of herdr tabs is left out. `none`: a name makes `judge` throw.
use tailii_host.Prelude.{
  ℕ, ◌+◌, Bool, true, false, not, ◌&&◌, ◌||◌, String, List, [], ◌∷◌, ◌++◌, Option, none, some, ◌==◌,
  nat_eq, string_eq, if◌then◌else◌, length, filter,
}
use tailii_host.Prelude.Maps
use tailii_host.Prelude.Text.{codes, is_prefix, sort, has_name}
use tailii_host.Heartbeat.Store.{remove_heartbeat, list_heartbeat_sessions}
use tailii_host.Reaper.{
  Backend, tmux, herdr, SessionMeta, PrewarmRecord, Prewarms, World, TickInput, Pane,
}
use tailii_host.Reaper.Judge.{judge, get_prewarm, remove_prewarm, prewarm_expired}

-- `TAILII_SESSION_PATTERN`, `/^(cs|s)-/`.
unfoldable pub is_tailii_session : String → Bool
is_tailii_session name = is_prefix (codes "cs-") (codes name) || is_prefix (codes "s-") (codes name)

-- What a backend answers about its sessions.
pub data Listing : Type 0 where
  -- There is no such backend.
  disabled : Listing
  -- It could not answer.
  unavailable : Listing
  -- The names of its live sessions.
  listed : List String → Listing

-- `herdrUnavailable`, `tmuxUnavailable`.
abbrev pub is_unavailable : Listing → Bool
is_unavailable unavailable = true
is_unavailable _ = false

-- `liveTailiiSessions`, and the filter on herdr's sessions.
unfoldable pub live_sessions : Listing → List String
live_sessions (listed names) = sort (filter is_tailii_session names)
live_sessions _ = []

-- A tmux session is matched by its name alone; a herdr session has no attached clients.
abbrev pub tmux_pane : Pane → Pane
tmux_pane p = record p {
  front_process_ids = none;
  front_process_ids_throws = false;
  use_session_id = false;
}

abbrev pub herdr_pane : Pane → Pane
herdr_pane p = record p { attached = false; use_session_id = true }

-- The loop of `judge` over the live sessions of a backend.
unfoldable pub sweep : TickInput → (String → Pane) → List String → World → Option World
sweep t pane [] w = some w
sweep t pane (name ∷ names) w = elim (judge t name (pane name) w) [
  | none ↦ none
  | some next ↦ sweep t pane names next
]

-- `metadataStore.get(name)?.backend === "herdr"`.
unfoldable pub is_herdr : Option SessionMeta → Bool
is_herdr none = false
is_herdr (some meta) = is_herdr_backend meta.backend
  where
    is_herdr_backend : Option Backend → Bool
    is_herdr_backend (some herdr) = true
    is_herdr_backend _ = false

-- The two `continue`s: the backend of the session could not answer.
unfoldable pub spared : TickInput → Bool → Bool → String → Bool
unfolding is_herdr
spared t no_tmux no_herdr name =
    no_herdr && is_herdr (Maps.get name t.metadata)
    || no_tmux && not (is_herdr (Maps.get name t.metadata))

-- The loop that removes the heartbeats of sessions that are gone.
unfoldable pub reclaim : TickInput → Bool → Bool → List String → List String → World → World
reclaim t no_tmux no_herdr live [] w = w
reclaim t no_tmux no_herdr live (name ∷ names) w = reclaim t no_tmux no_herdr live names (
    if has_name name live || spared t no_tmux no_herdr name then w else record w {
      heartbeats = remove_heartbeat w.heartbeats name;
      reclaimed = w.reclaimed ++ name ∷ [];
    })

-- `record === null || prewarmExpired(record, now)`.
unfoldable pub stale_prewarm : ℕ → Option PrewarmRecord → Bool
stale_prewarm now none = true
stale_prewarm now (some r) = prewarm_expired r now

-- `prewarmStore.names()`: the names of its files, readable or not, but those that begin with a dot.
unfoldable pub prewarm_names : Prewarms → List String
prewarm_names store = filter (λ name. not (is_prefix (codes ".") (codes name))) (Maps.keys store)

-- The loop that removes the lapsed prewarms of sessions that are gone.
unfoldable pub drop_prewarms : TickInput → List String → List String → World → World
unfolding stale_prewarm
drop_prewarms t live [] w = w
drop_prewarms t live (name ∷ names) w = drop_prewarms t live names (
    if not (has_name name live) && stale_prewarm t.now (get_prewarm name w.prewarms)
    then record w { prewarms = remove_prewarm name w.prewarms }
    else w)

pub record TickResult : Type 0 where
  pub world : World
  pub live_count : ℕ
  -- `stopServerIfEmpty` is called.
  pub stops_server : Bool

-- What is done after the sweeps, over the names that were live.
unfoldable pub finish : TickInput → Listing → Listing → World → TickResult
finish t on_tmux on_herdr w =
    let live = live_sessions on_tmux ++ live_sessions on_herdr in
    let kept =
      reclaim t (is_unavailable on_tmux) (is_unavailable on_herdr) live
        (list_heartbeat_sessions w.heartbeats) w in
    record {
      world =
          if t.has_prewarm_store && not (is_unavailable on_tmux) && not (is_unavailable on_herdr)
          then drop_prewarms t live (prewarm_names kept.prewarms) kept
          else kept;
      live_count =
          length (live_sessions on_tmux)
          + length (live_sessions on_herdr)
          + (if is_unavailable on_tmux then 1 else 0);
      stops_server = asks_to_stop on_herdr;
    }
  where
    asks_to_stop : Listing → Bool
    asks_to_stop disabled = false
    asks_to_stop unavailable = false
    asks_to_stop (listed names) = length (live_sessions (listed names)) == 0

unfoldable pub reaper_tick :
    TickInput → (Backend → String → Pane) → Listing → Listing → World → Option TickResult
reaper_tick t pane on_tmux on_herdr w =
    elim (sweep t (λ name. tmux_pane (pane tmux name)) (live_sessions on_tmux) w) [
      | none ↦ none
      | some w1 ↦
          elim (sweep t (λ name. herdr_pane (pane herdr name)) (live_sessions on_herdr) w1) [
            | none ↦ none
            | some w2 ↦ some (finish t on_tmux on_herdr w2)
          ]
    ]
