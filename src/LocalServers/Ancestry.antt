-- ===== src/LocalServers/Ancestry.antt =====
-- The walk up the parents always ends with an answer, and `belongs` means what it says.
use tailii_host.Prelude.{
  ℕ, zero, suc, ◌≤◌, ◌<◌, ◌≡◌, refl, ◌≢◌, ◌⊎◌, true, false, List, [], ◌∷◌, Option, none, some, ◌==◌,
  nat_eq, if◌then◌else◌, ◌||◌, length, String, ap, subst, ◌↔◌, Bool-cases, Option-cases, inl, inr,
  ==_iff, arith,
}
use tailii_host.Prelude.Maps
use tailii_host.LocalServers.{
  has_pid, Walk, belongs, apart, unknown, out_of_fuel, walk_parents, shares_terminal,
  process_belongs_to_pane,
}

-- How many entries of the table are for a pid not yet visited.
fresh : List ℕ → List (ℕ × ℕ) → ℕ
fresh visited [] = 0
fresh visited ((p, _) ∷ table) =
    let rest = fresh visited table in if has_pid p visited then rest else suc rest

fresh-le-length : (visited : List ℕ) (table : List (ℕ × ℕ)) → fresh visited table ≤ length table
unfolding fresh
fresh-le-length visited [] = omega arith
fresh-le-length visited ((p, q) ∷ table) = ground (arith, fresh-le-length visited table)

fresh-visit :
    (pid : ℕ) (visited : List ℕ) (table : List (ℕ × ℕ))
    → fresh (pid ∷ visited) table ≤ fresh visited table
unfolding fresh
fresh-visit pid visited [] = omega arith
fresh-visit pid visited ((p, q) ∷ table) = ground (arith, fresh-visit pid visited table)

fresh_falls :
    (pid parent : ℕ) (visited : List ℕ) (table : List (ℕ × ℕ))
    → Maps.get pid table ≡ some parent
    → has_pid pid visited ≡ false
    → fresh (pid ∷ visited) table < fresh visited table
unfolding fresh Maps.get
fresh_falls pid parent visited [] h v = absurd (ground arith)
fresh_falls pid parent visited ((p, q) ∷ table) h v = elim (Bool-cases (p == pid)) [
  | inl e ↦ let same : p ≡ pid = (==_iff p pid).0 e in ground (arith, fresh-visit pid visited table)
  | inr e ↦ ground (arith, fresh_falls pid parent visited table (ground arith) v)
]

-- What one round finds, by its result: an answer, or the parent's walk.
data Round (fuel pid : ℕ) (roots : List ℕ) (parents : List (ℕ × ℕ)) (visited : List ℕ)
    : Walk → Type 0 where
  stops_apart : (pid == 0 || pid == 1) ≡ true → Round fuel pid roots parents visited apart
  finds_root :
      (pid == 0) ≡ false → has_pid pid roots ≡ true → Round fuel pid roots parents visited belongs
  meets_again : has_pid pid visited ≡ true → Round fuel pid roots parents visited unknown
  loses_link : Maps.get pid parents ≡ none → Round fuel pid roots parents visited unknown
  goes :
      (parent : ℕ)
      → (pid == 0) ≡ false
      → has_pid pid roots ≡ false
      → (pid == 1) ≡ false
      → has_pid pid visited ≡ false
      → Maps.get pid parents ≡ some parent
      → Round fuel pid roots parents visited
          (walk_parents fuel parent roots parents (pid ∷ visited))

round :
    (fuel pid : ℕ) (roots : List ℕ) (parents : List (ℕ × ℕ)) (visited : List ℕ)
    → Round fuel pid roots parents visited (walk_parents (suc fuel) pid roots parents visited)
unfolding walk_parents
round fuel pid roots parents visited = elim (Bool-cases (pid == 0)) [
  | inl a ↦ rw (a, walk_parents) (stops_apart (ground arith))
  | inr a ↦ elim (Bool-cases (has_pid pid roots)) [
    | inl b ↦ rw (a, b, walk_parents) (finds_root a b)
    | inr b ↦ elim (Bool-cases (pid == 1)) [
      | inl c ↦ rw (a, b, c, walk_parents) (stops_apart (ground arith))
      | inr c ↦ elim (Bool-cases (has_pid pid visited)) [
        | inl d ↦ rw (a, b, c, d, walk_parents) (meets_again d)
        | inr d ↦ elim (Option-cases (Maps.get pid parents)) [
          | inl e ↦ rw (a, b, c, d, e, walk_parents) (loses_link e)
          | inr (parent, e) ↦ rw (a, b, c, d, e, walk_parents) (goes parent a b c d e)
        ]
      ]
    ]
  ]
]

-- More fuel than fresh entries: the walk does not run out.
walk_ends :
    (fuel pid : ℕ) (roots : List ℕ) (parents : List (ℕ × ℕ)) (visited : List ℕ)
    → fresh visited parents < fuel
    → walk_parents fuel pid roots parents visited ≢ out_of_fuel
walk_ends zero pid roots parents visited h = elim h [ ]
walk_ends (suc fuel) pid roots parents visited h =
    go (walk_parents (suc fuel) pid roots parents visited) (round fuel pid roots parents visited)
      (λ parent link new.
        walk_ends fuel parent roots parents (pid ∷ visited)
          (omega (arith, fresh_falls pid parent visited parents link new)))
  where
    go :
        (w : Walk)
        → Round fuel pid roots parents visited w
        → ((parent : ℕ)
            → Maps.get pid parents ≡ some parent
            → has_pid pid visited ≡ false
            → walk_parents fuel parent roots parents (pid ∷ visited) ≢ out_of_fuel)
        → w ≢ out_of_fuel
    go _ (stops_apart _) ih = λ k. cc
    go _ (finds_root _ _) ih = λ k. cc
    go _ (meets_again _) ih = λ k. cc
    go _ (loses_link _) ih = λ k. cc
    go _ (goes parent _ _ _ new link) ih = ih parent link new

-- `Nearest n pid`: going `n` times from child to parent, `pid` first meets a root. Pid 0 is no
-- process, and the walk does not go beyond pid 1.
pub data Nearest (parents : List (ℕ × ℕ)) (roots : List ℕ) : ℕ → ℕ → Type 0 where
  at_root : {pid : ℕ} → (pid == 0) ≡ false → has_pid pid roots ≡ true → Nearest parents roots 0 pid
  up :
      {n pid : ℕ} (parent : ℕ)
      → (pid == 0) ≡ false
      → has_pid pid roots ≡ false
      → (pid == 1) ≡ false
      → Maps.get pid parents ≡ some parent
      → Nearest parents roots n parent
      → Nearest parents roots (suc n) pid

Nearest-functional :
    {parents : List (ℕ × ℕ)} {roots : List ℕ} {n m pid : ℕ}
    → Nearest parents roots n pid
    → Nearest parents roots m pid
    → n ≡ m
Nearest-functional (at_root _ _) (at_root _ _) = refl
Nearest-functional (at_root _ r) (up _ _ r' _ _ _) = absurd (cc)
Nearest-functional (up _ _ r' _ _ _) (at_root _ r) = absurd (cc)
Nearest-functional {parents} {roots} (up {n} p _ _ _ e h) (up {n = k} q _ _ _ f j) =
    let same : q ≡ p = ground arith in
    ap suc (Nearest-functional h (subst (λ x. Nearest parents roots k x) same j))

walk_sound :
    (fuel pid : ℕ) (roots : List ℕ) (parents : List (ℕ × ℕ)) (visited : List ℕ)
    → walk_parents fuel pid roots parents visited ≡ belongs
    → (n : ℕ) × Nearest parents roots n pid
walk_sound zero pid roots parents visited h = absurd (unfold walk_parents in cc)
walk_sound (suc fuel) pid roots parents visited h =
    go (walk_parents (suc fuel) pid roots parents visited) (round fuel pid roots parents visited) h
      (λ parent. walk_sound fuel parent roots parents (pid ∷ visited))
  where
    go :
        (w : Walk)
        → Round fuel pid roots parents visited w
        → w ≡ belongs
        → ((parent : ℕ)
            → walk_parents fuel parent roots parents (pid ∷ visited) ≡ belongs
            → (n : ℕ) × Nearest parents roots n parent)
        → (n : ℕ) × Nearest parents roots n pid
    go _ (stops_apart _) e ih = absurd (cc)
    go _ (finds_root a b) e ih = (0, at_root a b)
    go _ (meets_again _) e ih = absurd (cc)
    go _ (loses_link _) e ih = absurd (cc)
    go _ (goes parent a b c _ link) e ih =
        let (n, h) = ih parent e in (suc n, up parent a b c link h)

-- Each visited pid is further from the root than the walk is now.
abbrev Behind : List (ℕ × ℕ) → List ℕ → ℕ → List ℕ → Type 0
Behind parents roots n visited =
    (v : ℕ) → has_pid v visited ≡ true → (m : ℕ) × (n < m) × Nearest parents roots m v

walk_complete :
    {parents : List (ℕ × ℕ)} {roots : List ℕ} {n pid : ℕ} (fuel : ℕ) (visited : List ℕ)
    → Nearest parents roots n pid
    → Behind parents roots n visited
    → fresh visited parents < fuel
    → walk_parents fuel pid roots parents visited ≡ belongs
unfolding walk_parents
walk_complete zero visited near behind h = elim h [ ]
walk_complete (suc fuel) visited (at_root a b) behind h = rw (a, b, walk_parents)
walk_complete {parents} {roots} {pid} (suc fuel) visited (up {n} parent a b c link near) behind h =
    elim (Bool-cases (has_pid pid visited)) [
      | inl d ↦
          let (m, further, at) = behind pid d in
          let same = Nearest-functional at (up parent a b c link near) in absurd (omega arith)
      | inr d ↦
          rw (a, b, c, d, link, walk_parents)
            (walk_complete fuel (pid ∷ visited) near
              (λ v m. elim (Bool-cases (pid == v)) [
                | inl same ↦ (
                  suc n,
                  omega arith,
                  subst (λ x. Nearest parents roots (suc n) x) ((==_iff pid v).0 same)
                      (up parent a b c link near),
                )
                | inr ne ↦ let (k, further, at) = behind v (ground arith) in (k, omega arith, at)
              ])
              (omega (arith, fresh_falls pid parent visited parents link d)))
    ]

-- `processBelongsToPane` always ends with an answer. It is `true` exactly if a root of the pane has
-- the process's controlling terminal, or if, going up from the process through the table, a root is
-- met before pid 0, before leaving pid 1, and before a pid with no entry or one met before.
pub process_belongs_to_pane_correct :
    (pid : ℕ) (roots : List ℕ) (parents : List (ℕ × ℕ)) (terminals : Option (List (ℕ × String)))
    → (process_belongs_to_pane pid roots parents terminals ≢ out_of_fuel)
      × ((process_belongs_to_pane pid roots parents terminals ≡ belongs) ↔ (
          (shares_terminal pid roots terminals ≡ true) ⊎ ((n : ℕ) × Nearest parents roots n pid)))
unfolding process_belongs_to_pane
process_belongs_to_pane_correct pid roots parents terminals =
    elim (Bool-cases (shares_terminal pid roots terminals)) [
      | inl e ↦ rw e (λ k. cc, (λ _. inl refl, λ _. refl))
      | inr e ↦ rw e (
        walk_ends (suc (suc (length parents))) pid roots parents []
            (omega (arith, fresh-le-length [] parents)),
        (
          λ h. inr (walk_sound (suc (suc (length parents))) pid roots parents [] h),
          λ k. elim k [
            | inl f ↦ absurd (cc)
            | inr (n, near) ↦
                walk_complete (suc (suc (length parents))) [] near (λ v f. absurd (cc))
                  (omega (arith, fresh-le-length [] parents))
          ],
        ),
      )
    ]
