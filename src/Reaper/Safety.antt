-- ===== src/Reaper/Safety.antt =====
-- When one sweep closes a session: never without cause.
use tailii_host.Prelude.{
  ◌+◌, ◌*◌, ◌≤◌, Option, subst, ◌≡◌, refl, sym, ap, ◌∙◌, ◌⊎◌, inl, inr, true, false, not, ◌||◌,
  String, [], ◌∷◌, ◌++◌, none, some, ◌==◌, nat_eq, string_eq, if◌then◌else◌, ==_iff, arith,
  Bool-cases, Option-cases,
}
use tailii_host.Prelude.Maps
use tailii_host.Heartbeat.Store.{read_heartbeat}
use tailii_host.Reaper.{SessionMeta, PrewarmRecord, World, TickInput, Pane}
use tailii_host.Reaper.Judge.{
  get_prewarm, prewarm_expired, Verdict, done, go_on, judge_heartbeat, judge_prewarm,
  recheck_prewarm, judge, conversation_started, after_prewarm,
}
use tailii_host.Reaper.Servers.{Closes, Closes-map, Closes-of_eq}
use tailii_host.Reaper.Closing.{SameTime, IdleLapsed, judge_heartbeat-Closes}

-- The conversation of a prewarm has no transcript in the session's directory, as far as its
-- metadata name one.
abbrev pub Unused : TickInput → Option SessionMeta → PrewarmRecord → Type 0
Unused t none r = Unit
Unused t (some meta) r = t.transcript_exists meta.cwd r.claude_session_id ≡ false

conversation_started-Unused :
    (t : TickInput) (meta : Option SessionMeta) (r : PrewarmRecord)
    → conversation_started t meta r ≡ false
    → Unused t meta r
unfolding conversation_started
conversation_started-Unused t none r e = tt
conversation_started-Unused t (some meta) r e = e

-- Why a prewarmed session may be closed: the store has its record, its conversation has not
-- started, it had the same conversation at the first reading, and at both readings the record was
-- last touched at least twenty minutes ago.
pub record PrewarmLapsed (t : TickInput) (name : String) (p : Pane) (w : World) : Type 0 where
  pub first : PrewarmRecord
  pub second : PrewarmRecord
  pub has_store : t.has_prewarm_store ≡ true
  pub read_first : get_prewarm name w.prewarms ≡ some first
  pub read_second : get_prewarm name (p.meanwhile_prewarms w.prewarms) ≡ some second
  pub same_conversation : second.claude_session_id ≡ first.claude_session_id
  pub unused : Unused t (Maps.get name t.metadata) first
  pub expired_first : first.touched_at + 20 * 60 ≤ t.now
  pub expired_second : second.touched_at + 20 * 60 ≤ t.now

-- What the part on prewarms leaves: a world to end with, or one to go on from.
abbrev PrewarmResult : TickInput → String → Pane → World → Verdict → Type 0
PrewarmResult t name p w (done next) =
    Closes name w next ((p.attached ≡ false) × PrewarmLapsed t name p w)
PrewarmResult t name p w (go_on next) = (next.kills ≡ w.kills) × (next.heartbeats ≡ w.heartbeats)

recheck_prewarm-result :
    (t : TickInput) (name : String) (p : Pane) (w : World) (first : PrewarmRecord)
    → t.has_prewarm_store ≡ true
    → p.attached ≡ false
    → get_prewarm name w.prewarms ≡ some first
    → first.touched_at + 20 * 60 ≤ t.now
    → Unused t (Maps.get name t.metadata) first
    → PrewarmResult t name p w
        (recheck_prewarm t name first (record w { prewarms = p.meanwhile_prewarms w.prewarms }))
unfolding recheck_prewarm
recheck_prewarm-result t name p w first s de r x u =
    elim (Option-cases (get_prewarm name (p.meanwhile_prewarms w.prewarms))) [
      | inl gone ↦ rw (gone, recheck_prewarm) (inl refl)
      | inr (again, there) ↦
          elim (Bool-cases (
            not (again.claude_session_id == first.claude_session_id)
            || not (prewarm_expired again t.now))) [
              | inl stays ↦ rw (there, stays, recheck_prewarm) (inl refl)
              | inr goes ↦
                  rw (there, goes, recheck_prewarm)
                    (inr (
                      refl,
                      (
                        de,
                        record {
                          first = first;
                          second = again;
                          has_store = s;
                          read_first = r;
                          read_second = there;
                          same_conversation =
                              (==_iff again.claude_session_id first.claude_session_id).0
                                (ground arith);
                          unused = u;
                          expired_first = x;
                          expired_second = ground arith;
                        },
                      ),
                    ))
            ]
    ]

judge_prewarm-result :
    (t : TickInput) (name : String) (p : Pane) (w : World)
    → PrewarmResult t name p w (
        judge_prewarm t name p w
          (if t.has_prewarm_store then get_prewarm name w.prewarms else none))
judge_prewarm-result t name p w = elim (Bool-cases t.has_prewarm_store) [
  | inr off ↦ simp off (unfold judge_prewarm in (refl, refl))
  | inl on ↦ elim (Option-cases (get_prewarm name w.prewarms)) [
    | inl gone ↦ simp (on, gone) (unfold judge_prewarm in (refl, refl))
    | inr (first, r) ↦ simp (on, r) (found first r on)
  ]
]
  where
    found :
        (first : PrewarmRecord)
        → get_prewarm name w.prewarms ≡ some first
        → t.has_prewarm_store ≡ true
        → PrewarmResult t name p w (judge_prewarm t name p w (some first))
    found first r on = elim (Bool-cases (conversation_started t (Maps.get name t.metadata) first)) [
      | inl started ↦ unfold judge_prewarm in rw (started, judge_prewarm) (refl, refl)
      | inr fresh ↦ elim (Bool-cases (p.attached || not (prewarm_expired first t.now))) [
        | inl stays ↦ unfold judge_prewarm in rw (fresh, stays, judge_prewarm) (inl refl)
        | inr goes ↦
            let result =
              recheck_prewarm-result t name p w first on (ground arith) r (ground arith)
                (conversation_started-Unused t (Maps.get name t.metadata) first fresh) in
            unfold judge_prewarm in rw (fresh, goes, judge_prewarm) result
      ]
    ]

-- The cause speaks of the heartbeats only.
IdleLapsed-transfer :
    (t : TickInput) (name : String) (p : Pane) (v w : World)
    → v.heartbeats ≡ w.heartbeats
    → IdleLapsed t name p v
    → IdleLapsed t name p w
IdleLapsed-transfer t name p v w q c = record {
  heartbeat = c.heartbeat;
  read_first = ap (λ d. read_heartbeat d name) (sym q) ∙ c.read_first;
  overdue = c.overdue;
  not_working = c.not_working;
  servers_apart = c.servers_apart;
  not_moved =
      subst (λ d. SameTime c.heartbeat (read_heartbeat (p.meanwhile_heartbeats d) name)) q
        c.not_moved;
}

-- What closing needs: no terminal, and one of the two causes.
abbrev pub HasCause : TickInput → String → Pane → World → Type 0
HasCause t name p w = (p.attached ≡ false) × (PrewarmLapsed t name p w ⊎ IdleLapsed t name p w)

after_prewarm-eq :
    (t : TickInput) (name : String) (p : Pane) (w : World)
    → after_prewarm t name p (go_on w)
      ≡ judge_heartbeat t name p w (read_heartbeat w.heartbeats name)
unfolding after_prewarm
after_prewarm-eq t name p w = refl

after_prewarm-Closes :
    (t : TickInput) (name : String) (p : Pane) (w next : World) (v : Verdict)
    → PrewarmResult t name p w v
    → after_prewarm t name p v ≡ some next
    → Closes name w next (HasCause t name p w)
after_prewarm-Closes t name p w next (done w1) r e =
    Closes-map name w next (λ (a, c). (a, inl c))
      (Closes-of_eq name w w1 next _ (unfold after_prewarm in e) r)
after_prewarm-Closes t name p w next (go_on w1) (k, q) e =
    elim (judge_heartbeat-Closes t name p w1 next (read_heartbeat w1.heartbeats name) refl
      (sym (after_prewarm-eq t name p w1) ∙ e)) [
        | inl same ↦ inl (same ∙ k)
        | inr (closed, (a, c)) ↦ inr (
          closed ∙ ap (λ ks. ks ++ name ∷ []) k,
          (a, inr (IdleLapsed-transfer t name p w1 w q c)),
        )
      ]

-- If one sweep of a session tells the backend to close it, then no terminal is attached to it, and
-- one of two holds. Either its prewarm lapsed: if the session has metadata, their directory has no
-- transcript of the prewarm's conversation, and the prewarm has the same conversation at a second
-- reading and is untouched for at least twenty minutes at both. Or it has a heartbeat at least the
-- timeout old, which a second reading does not find with another time; no listening server but the
-- agents' own belongs to it; and its metadata name Codex, or its heartbeat is idle, no status file
-- that counts for it reports work that began less than 24 hours ago and less than five minutes
-- ahead, and it has no reservation left whose owner is there. A sweep tells the backend nothing
-- else.
pub judge-closes_with_cause :
    (t : TickInput) (name : String) (p : Pane) (w next : World)
    → judge t name p w ≡ some next
    → (next.kills ≡ w.kills) ⊎ ((next.kills ≡ w.kills ++ name ∷ []) × HasCause t name p w)
unfolding judge
judge-closes_with_cause t name p w next e =
    after_prewarm-Closes t name p w next _ (judge_prewarm-result t name p w) e
