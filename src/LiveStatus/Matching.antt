-- ===== src/LiveStatus/Matching.antt =====
-- Which status files count for a session, as one test on the files.
use tailii_host.Prelude.{
  ℕ, ◌≡◌, refl, sym, ap, ◌∙◌, inl, inr, Bool, true, false, not, ◌&&◌, String, List, [], ◌∷◌, Option,
  none, some, ◌==◌, nat_eq, string_eq, if◌then◌else◌, length, any, filter, is_some, arith,
  Bool-cases,
}
use tailii_host.LocalServers.{has_pid}
use tailii_host.LiveStatus.{
  ClaudeLiveRecord, in_tmux_session, has_session_id, by_session_id, by_pane,
  find_claude_live_records,
}

module _ {A : Type 0} where
  filter-filter :
      (p q : A → Bool) (xs : List A) → filter q (filter p xs) ≡ filter (λ x. p x && q x) xs
  filter-filter p q [] = refl
  filter-filter p q (x ∷ xs) = ground (arith, filter-filter p q xs)

  length-filter : (p : A → Bool) (xs : List A) → (length (filter p xs) == 0) ≡ not (any p xs)
  length-filter p [] = ground arith
  length-filter p (x ∷ xs) = ground (arith, length-filter p xs)

  filter-false : (xs : List A) → filter (λ _. false) xs ≡ []
  filter-false [] = refl
  filter-false (x ∷ xs) = filter-false xs

-- The only match left where neither the tmux names nor the pane's pids decide.
abbrev pub matches_id : Option String → ClaudeLiveRecord → Bool
matches_id none r = false
matches_id (some id) r = not (is_some r.tmux) && has_session_id id r.session_id

-- The match without a tmux name.
abbrev pub matches_pane : Option (List ℕ) → Option String → ClaudeLiveRecord → Bool
matches_pane (some pids) id r = has_pid r.pid pids
matches_pane none id r = matches_id id r

-- The session is named by some file.
abbrev pub names_session : String → List ClaudeLiveRecord → Bool
names_session session records = any (in_tmux_session session) records

-- A choice that is dropped unless it is the only one.
abbrev pub only_one : Bool → List ClaudeLiveRecord → List ClaudeLiveRecord
only_one needed found = if needed && not (length found == 1) then [] else found

-- The test that decides whether a file counts.
abbrev pub matches :
    List ClaudeLiveRecord → String → Option (List ℕ) → Option String → ClaudeLiveRecord → Bool
matches records session pids id r =
    if names_session session records then in_tmux_session session r else matches_pane pids id r

module _ (alive : ℕ → Option String → Bool) where
  by_session_id_lem :
      (records : List ClaudeLiveRecord) (id : Option String)
      → by_session_id alive records id
        ≡ only_one true (filter (λ r. matches_id id r && alive r.pid r.proc_start) records)
  unfolding by_session_id
  by_session_id_lem records none = sym (ap (only_one true) (filter-false records))
  by_session_id_lem records (some id) =
      ap unless_one (filter-filter (matches_id (some id)) (λ r. alive r.pid r.proc_start) records)
      ∙ unless_one_lem (filter (λ r. matches_id (some id) r && alive r.pid r.proc_start) records)
    where
      unless_one : List ClaudeLiveRecord → List ClaudeLiveRecord
      unless_one found = if length found == 1 then found else []

      unless_one_lem : (found : List ClaudeLiveRecord) → unless_one found ≡ only_one true found
      unless_one_lem found = elim (Bool-cases (length found == 1)) [
        | inl one ↦ rw one
        | inr many ↦ rw many
      ]

  by_pane_lem :
      (records : List ClaudeLiveRecord) (pids : Option (List ℕ)) (id : Option String)
      → by_pane alive records pids id
        ≡ only_one
            (not (is_some pids))
            (filter (λ r. matches_pane pids id r && alive r.pid r.proc_start) records)
  unfolding by_pane
  by_pane_lem records none id = by_session_id_lem records id
  by_pane_lem records (some pids) id =
      filter-filter (λ r. has_pid r.pid pids) (λ r. alive r.pid r.proc_start) records

  no_records : (pids : Option (List ℕ)) (id : Option String) → by_pane alive [] pids id ≡ []
  unfolding by_pane by_session_id
  no_records none none = refl
  no_records none (some id) = refl
  no_records (some pids) id = refl

  -- The files that count are, in their order, those of living processes that match: if some file
  -- names the session in its tmux entry, those that do; else, if the pane's front pids are known,
  -- those with such a pid; else those outside tmux with the session's id, and then only if there
  -- is exactly one.
  pub find_claude_live_records_lem :
      (records : List ClaudeLiveRecord) (session : String) (pids : Option (List ℕ))
      (id : Option String)
      → find_claude_live_records alive records session pids id
        ≡ only_one
            (not (names_session session records) && not (is_some pids))
            (filter (λ r. matches records session pids id r && alive r.pid r.proc_start) records)
  unfolding find_claude_live_records
  find_claude_live_records_lem records session pids id =
      elim (Bool-cases (names_session session records)) [
        | inl named ↦
            rw (length-filter (in_tmux_session session) records, named)
              (filter-filter (in_tmux_session session) (λ r. alive r.pid r.proc_start) records)
        | inr unnamed ↦
            rw (length-filter (in_tmux_session session) records, unnamed)
              (empty_or records ∙ by_pane_lem records pids id)
      ]
    where
      empty_or :
          (rs : List ClaudeLiveRecord)
          → (if length rs == 0 then [] else by_pane alive rs pids id) ≡ by_pane alive rs pids id
      empty_or [] = sym (no_records pids id)
      empty_or (r ∷ rs) = ground arith
