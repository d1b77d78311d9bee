-- ===== src/Reaper/Names.antt =====
-- The sweep closes only sessions that tailii made.
use tailii_host.Prelude.{
  ◌≡◌, refl, sym, ap, ◌∙◌, subst, inl, inr, Bool, true, not, ◌&&◌, ◌||◌, String, List, [], ◌∷◌,
  ◌++◌, some, string_eq, if◌then◌else◌, filter, All, All-append, arith, Bool-cases, Option-cases,
}
use tailii_host.Prelude.Text.{sort, insert_sorted, has_name}
use tailii_host.Heartbeat.Store.{list_heartbeat_sessions, remove_heartbeat}
use tailii_host.Reaper.{Backend, tmux, herdr, World, TickInput, Pane}
use tailii_host.Reaper.Judge.{judge, get_prewarm, remove_prewarm}
use tailii_host.Reaper.Safety.{judge-closes_with_cause}
use tailii_host.Reaper.Tick.{
  is_tailii_session, Listing, disabled, unavailable, listed, is_unavailable, live_sessions,
  tmux_pane, herdr_pane, sweep, spared, reclaim, stale_prewarm, drop_prewarms, prewarm_names,
  TickResult, finish, reaper_tick,
}

-- Every name is of a session that tailii made.
abbrev pub AllTailii : List String → Type 0
AllTailii names = All (λ name. is_tailii_session name ≡ true) names

AllTailii-insert_sorted :
    (n : String) (names : List String)
    → is_tailii_session n ≡ true
    → AllTailii names
    → AllTailii (insert_sorted n names)
unfolding insert_sorted
AllTailii-insert_sorted n [] p h = (p, tt)
AllTailii-insert_sorted n (m ∷ names) p (q, h) = ground (arith, AllTailii-insert_sorted n names p h)

AllTailii-sort : (names : List String) → AllTailii names → AllTailii (sort names)
unfolding sort
AllTailii-sort [] h = tt
AllTailii-sort (n ∷ names) (p, h) =
    AllTailii-insert_sorted n (sort names) p (AllTailii-sort names h)

AllTailii-filter : (names : List String) → AllTailii (filter is_tailii_session names)
AllTailii-filter [] = tt
AllTailii-filter (n ∷ names) = ground (arith, AllTailii-filter names)

AllTailii-live_sessions : (l : Listing) → AllTailii (live_sessions l)
unfolding live_sessions
AllTailii-live_sessions disabled = tt
AllTailii-live_sessions unavailable = tt
AllTailii-live_sessions (listed names) =
    AllTailii-sort (filter is_tailii_session names) (AllTailii-filter names)

sweep_cons :
    (t : TickInput) (pane : String → Pane) (name : String) (names : List String) (w mid : World)
    → judge t name (pane name) w ≡ some mid
    → sweep t pane (name ∷ names) w ≡ sweep t pane names mid
unfolding sweep
sweep_cons t pane name names w mid f = rw (f, sweep)

judge-kills :
    (t : TickInput) (name : String) (p : Pane) (w mid : World)
    → is_tailii_session name ≡ true
    → AllTailii w.kills
    → judge t name p w ≡ some mid
    → AllTailii mid.kills
judge-kills t name p w mid q k f = elim (judge-closes_with_cause t name p w mid f) [
  | inl same ↦ subst AllTailii (sym same) k
  | inr (closed, _) ↦
      subst AllTailii (sym closed)
        (All-append (λ n. is_tailii_session n ≡ true) w.kills (name ∷ []) k (q, tt))
]

sweep-kills :
    (t : TickInput) (pane : String → Pane) (names : List String) (w next : World)
    → AllTailii names
    → AllTailii w.kills
    → sweep t pane names w ≡ some next
    → AllTailii next.kills
sweep-kills t pane [] w next n k e =
    let same : w.kills ≡ next.kills = unfold sweep in ground arith in subst AllTailii same k
sweep-kills t pane (name ∷ names) w next (q, n) k e =
    elim (Option-cases (judge t name (pane name) w)) [
      | inl f ↦ absurd (unfold sweep in ground arith)
      | inr (mid, f) ↦
          sweep-kills t pane names mid next n (judge-kills t name (pane name) w mid q k f)
            (sym (sweep_cons t pane name names w mid f) ∙ e)
    ]

reclaim-kills :
    (t : TickInput) (no_tmux no_herdr : Bool) (live names : List String) (w : World)
    → (reclaim t no_tmux no_herdr live names w).kills ≡ w.kills
unfolding reclaim
reclaim-kills t no_tmux no_herdr live [] w = refl
reclaim-kills t no_tmux no_herdr live (n ∷ names) w =
    let w1 = record w {
      heartbeats = remove_heartbeat w.heartbeats n;
      reclaimed = w.reclaimed ++ n ∷ [];
    } in
    reclaim-kills t no_tmux no_herdr live names
      (if has_name n live || spared t no_tmux no_herdr n then w else w1)
    ∙ ground arith

drop_prewarms-kills :
    (t : TickInput) (live names : List String) (w : World)
    → (drop_prewarms t live names w).kills ≡ w.kills
unfolding drop_prewarms
drop_prewarms-kills t live [] w = refl
drop_prewarms-kills t live (n ∷ names) w =
    drop_prewarms-kills t live names (
      if not (has_name n live) && stale_prewarm t.now (get_prewarm n w.prewarms)
      then record w { prewarms = remove_prewarm n w.prewarms }
      else w)
    ∙ ground arith

finish-kills :
    (t : TickInput) (on_tmux on_herdr : Listing) (w : World)
    → (finish t on_tmux on_herdr w).world.kills ≡ w.kills
unfolding finish
finish-kills t on_tmux on_herdr w =
    let live = live_sessions on_tmux ++ live_sessions on_herdr in
    let names = list_heartbeat_sessions w.heartbeats in
    let kept = reclaim t (is_unavailable on_tmux) (is_unavailable on_herdr) live names w in
    let same = reclaim-kills t (is_unavailable on_tmux) (is_unavailable on_herdr) live names w in
    elim (Bool-cases
      (t.has_prewarm_store && not (is_unavailable on_tmux) && not (is_unavailable on_herdr))) [
        | inl e ↦ simp e (drop_prewarms-kills t live (prewarm_names kept.prewarms) kept ∙ same)
        | inr e ↦ simp e same
      ]

-- A tick that ends has made both sweeps and the work after them.
tick_inversion :
    (t : TickInput) (pane : Backend → String → Pane) (on_tmux on_herdr : Listing) (w : World)
    (r : TickResult)
    → reaper_tick t pane on_tmux on_herdr w ≡ some r
    → (w1 : World) × ((w2 : World) × (sweep t
            (λ name. tmux_pane (pane tmux name))
            (live_sessions on_tmux)
            w
          ≡ some w1)
        × (sweep t (λ name. herdr_pane (pane herdr name)) (live_sessions on_herdr) w1 ≡ some w2)
        × (finish t on_tmux on_herdr w2 ≡ r))
unfolding reaper_tick
tick_inversion t pane on_tmux on_herdr w r e =
    elim (Option-cases (sweep t (λ name. tmux_pane (pane tmux name)) (live_sessions on_tmux) w)) [
      | inl f ↦ absurd (ground arith)
      | inr (w1, f) ↦
          elim (Option-cases
            (sweep t (λ name. herdr_pane (pane herdr name)) (live_sessions on_herdr) w1)) [
              | inl g ↦ absurd (ground arith)
              | inr (w2, g) ↦ (w1, (w2, f, g, ground arith))
            ]
    ]

-- A tick tells the backends to close only sessions whose names begin with `cs-` or `s-`, whatever
-- other sessions the backends list.
pub reaper_tick-closes_own :
    (t : TickInput) (pane : Backend → String → Pane) (on_tmux on_herdr : Listing) (w : World)
    (r : TickResult)
    → w.kills ≡ []
    → reaper_tick t pane on_tmux on_herdr w ≡ some r
    → AllTailii r.world.kills
reaper_tick-closes_own t pane on_tmux on_herdr w r z e =
    let (w1, (w2, f, g, made)) = tick_inversion t pane on_tmux on_herdr w r e in
    let first =
      sweep-kills t (λ name. tmux_pane (pane tmux name)) (live_sessions on_tmux) w w1
        (AllTailii-live_sessions on_tmux) (subst AllTailii (sym z) tt) f in
    let second =
      sweep-kills t (λ name. herdr_pane (pane herdr name)) (live_sessions on_herdr) w1 w2
        (AllTailii-live_sessions on_herdr) first g in
    subst AllTailii
      (sym (finish-kills t on_tmux on_herdr w2) ∙ ap (λ (x : TickResult). x.world.kills) made)
      second
