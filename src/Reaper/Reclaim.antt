-- ===== src/Reaper/Reclaim.antt =====
-- Which heartbeats the end of a tick removes, exactly.
use tailii_host.Prelude.{
  ◌≡◌, refl, ap, ◌∙◌, Bool, false, not, ◌&&◌, ◌||◌, String, List, [], ◌∷◌, ◌++◌, none, ◌==◌,
  string_eq, if◌then◌else◌, filter, arith, Bool-cases, inl, inr, ==_iff,
}
use tailii_host.Prelude.Maps
use tailii_host.Prelude.Text.{codes, includes, sort, insert_sorted, has_name}
use tailii_host.Heartbeat.Store.{
  HeartbeatDir, read_heartbeat, remove_heartbeat, list_heartbeat_sessions,
}
use tailii_host.Heartbeat.Laws.{read-remove}
use tailii_host.Reaper.{World, TickInput}
use tailii_host.Reaper.Judge.{get_prewarm, remove_prewarm}
use tailii_host.Reaper.Tick.{
  stale_prewarm, is_herdr, Listing, is_unavailable, live_sessions, spared, reclaim, drop_prewarms,
  prewarm_names, finish,
}

has_name-insert_sorted :
    (name n : String) (names : List String)
    → has_name name (insert_sorted n names) ≡ (n == name || has_name name names)
unfolding insert_sorted
has_name-insert_sorted name n [] = refl
has_name-insert_sorted name n (m ∷ names) = ground (arith, has_name-insert_sorted name n names)

has_name-sort :
    (name : String) (names : List String) → has_name name (sort names) ≡ has_name name names
unfolding sort
has_name-sort name [] = refl
has_name-sort name (n ∷ names) =
    rw (has_name-insert_sorted name n (sort names), has_name-sort name names)

has_name-filter :
    (p : String → Bool) (name : String) (names : List String)
    → has_name name (filter p names) ≡ (p name && has_name name names)
has_name-filter p name [] = ground arith
has_name-filter p name (n ∷ names) = elim (Bool-cases (n == name)) [
  | inl e ↦
      let same : n ≡ name = (==_iff n name).0 e in
      rw same (ground (arith, has_name-filter p name names, ==_iff name name))
  | inr e ↦ ground (arith, has_name-filter p name names)
]

get_of_no_key :
    (dir : HeartbeatDir) (name : String)
    → has_name name (Maps.keys dir) ≡ false
    → Maps.get name dir ≡ none
unfolding Maps.get Maps.keys
get_of_no_key [] name h = refl
get_of_no_key ((n, file) ∷ dir) name h = ground (arith, get_of_no_key dir name)

-- A name that is no key has no file.
read_of_no_key :
    (dir : HeartbeatDir) (name : String)
    → has_name name (Maps.keys dir) ≡ false
    → read_heartbeat dir name ≡ none
unfolding read_heartbeat
read_of_no_key dir name h = ground (arith, get_of_no_key dir name h)

-- What the loop does to one name: it goes if the loop meets it, unless it is live or spared.
reclaim_lem :
    (t : TickInput) (no_tmux no_herdr : Bool) (live names : List String) (w : World) (name : String)
    → read_heartbeat (reclaim t no_tmux no_herdr live names w).heartbeats name ≡ (
        if has_name name names && not (has_name name live || spared t no_tmux no_herdr name)
        then none
        else read_heartbeat w.heartbeats name)
unfolding reclaim
reclaim_lem t no_tmux no_herdr live [] w name = refl
reclaim_lem t no_tmux no_herdr live (n ∷ names) w name =
    let w1 = record w {
      heartbeats = remove_heartbeat w.heartbeats n;
      reclaimed = w.reclaimed ++ n ∷ [];
    } in
    reclaim_lem t no_tmux no_herdr live names
      (if has_name n live || spared t no_tmux no_herdr n then w else w1) name
    ∙ ground (arith, ==_iff n name, read-remove w.heartbeats n name)

drop_prewarms-heartbeats :
    (t : TickInput) (live names : List String) (w : World)
    → (drop_prewarms t live names w).heartbeats ≡ w.heartbeats
unfolding drop_prewarms
drop_prewarms-heartbeats t live [] w = refl
drop_prewarms-heartbeats t live (n ∷ names) w =
    drop_prewarms-heartbeats t live names (
      if not (has_name n live) && stale_prewarm t.now (get_prewarm n w.prewarms)
      then record w { prewarms = remove_prewarm n w.prewarms }
      else w)
    ∙ ground arith

-- The names that the loop goes through.
has_name-list :
    (dir : HeartbeatDir) (name : String)
    → has_name name (list_heartbeat_sessions dir)
      ≡ (not (includes (codes ".tmp-") (codes name)) && has_name name (Maps.keys dir))
unfolding list_heartbeat_sessions
has_name-list dir name =
    has_name-sort name (filter (λ n. not (includes (codes ".tmp-") (codes n))) (Maps.keys dir))
    ∙ has_name-filter (λ n. not (includes (codes ".tmp-") (codes n))) name (Maps.keys dir)

-- The world after the loop over the heartbeats.
abbrev reclaimed_world : TickInput → Listing → Listing → World → World
reclaimed_world t on_tmux on_herdr w =
    reclaim t (is_unavailable on_tmux) (is_unavailable on_herdr)
      (live_sessions on_tmux ++ live_sessions on_herdr) (list_heartbeat_sessions w.heartbeats) w

finish-heartbeats :
    (t : TickInput) (on_tmux on_herdr : Listing) (w : World)
    → (finish t on_tmux on_herdr w).world.heartbeats
      ≡ (reclaimed_world t on_tmux on_herdr w).heartbeats
unfolding finish
finish-heartbeats t on_tmux on_herdr w =
    let kept = reclaimed_world t on_tmux on_herdr w in
    elim (Bool-cases
      (t.has_prewarm_store && not (is_unavailable on_tmux) && not (is_unavailable on_herdr))) [
        | inl e ↦ simp e (
            drop_prewarms-heartbeats t (live_sessions on_tmux ++ live_sessions on_herdr)
              (prewarm_names kept.prewarms) kept)
        | inr e ↦ simp e
      ]

-- The backend that a session belongs to (tmux, if it is not known to be herdr) could answer.
abbrev pub backend_answers : TickInput → Listing → Listing → String → Bool
backend_answers t on_tmux on_herdr name =
    not (is_unavailable (if is_herdr (Maps.get name t.metadata) then on_herdr else on_tmux))

spared-eq :
    (t : TickInput) (on_tmux on_herdr : Listing) (name : String)
    → spared t (is_unavailable on_tmux) (is_unavailable on_herdr) name
      ≡ not (backend_answers t on_tmux on_herdr name)
unfolding spared
spared-eq t on_tmux on_herdr name = ground arith

-- The end of a tick removes the heartbeat of a session exactly if the session is live in neither
-- backend, the backend that it belongs to could answer (a session not known to be herdr's counts
-- as tmux's), and its name is not that of a temporary file; it changes no other.
pub finish-reclaims :
    (t : TickInput) (on_tmux on_herdr : Listing) (w : World) (name : String)
    → let live = live_sessions on_tmux ++ live_sessions on_herdr in
      read_heartbeat (finish t on_tmux on_herdr w).world.heartbeats name ≡ (
        if not (has_name name live)
          && backend_answers t on_tmux on_herdr name
          && not (includes (codes ".tmp-") (codes name))
        then none
        else read_heartbeat w.heartbeats name)
finish-reclaims t on_tmux on_herdr w name =
    ap (λ dir. read_heartbeat dir name) (finish-heartbeats t on_tmux on_herdr w)
    ∙ reclaim_lem t (is_unavailable on_tmux) (is_unavailable on_herdr)
        (live_sessions on_tmux ++ live_sessions on_herdr) (list_heartbeat_sessions w.heartbeats) w
        name
    ∙ ground (
      arith,
      has_name-list w.heartbeats name,
      read_of_no_key w.heartbeats name,
      spared-eq t on_tmux on_herdr name,
    )
